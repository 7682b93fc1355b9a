-- ===== src/Fallback/Tests.antt =====
-- Runs of the engine at concrete inputs.
use momu_llmgateway.Base.{true, false, some, ◌≡◌, refl}
use momu_llmgateway.Model.{
  other_error, model_error, new_error, err_code_internal, err_code_model_not_found,
}
use momu_llmgateway.Fallback.{is_retryable}

retryable_texts :
    (is_retryable (some (other_error "Get \"x\": dial tcp: Connection Refused")) ≡ true)
    × (is_retryable (some (other_error "bad gateway")) ≡ false)
    × (is_retryable (some (model_error (new_error err_code_internal "i/o TIMEOUT"))) ≡ true)
    × (is_retryable (some (model_error (new_error err_code_model_not_found "timeout"))) ≡ false)
unfolding is_retryable
retryable_texts = (refl, refl, refl, refl)
