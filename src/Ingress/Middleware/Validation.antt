-- ===== src/Ingress/Middleware/Validation.antt =====
-- internal/ingress/middleware_validation.go: what a chat completion must ask for.
use momu_llmgateway.Base.{
  String, Bool, false, not, ◌||◌, ◌&&◌, Option, none, some, List, ◌==◌, eqb, if◌then◌else◌, ◌≡◌,
  ◌↔◌, ◌≢◌, Any, arith, Bool-cases, inl, inr, refl, eq_iff,
}
use momu_llmgateway.Base.Float.{Float64, float_lt, float_zero, float_two}
use momu_llmgateway.Base.Int.{ℤ, pos, leb_ℤ, ◌<ℤ◌}
use momu_llmgateway.Base.Text.{codes, has_prefix}
use momu_llmgateway.Ingress.Middleware.{
  GinContext, Verdict, pass, abort, abort-ne-pass, ChatRequest, RequestJson,
}
use momu_llmgateway.Base.Dict.{is_among, is_among-Any, Any-is_among}
use momu_llmgateway.Model.{◌<>◌}

abbrev pub bad_temperature : Option Float64 → Bool
bad_temperature none = false
bad_temperature (some t) = float_lt t float_zero || float_lt float_two t

abbrev pub bad_max_tokens : Option ℤ → Bool
bad_max_tokens none = false
bad_max_tokens (some n) = leb_ℤ n (pos 0)

abbrev pub bad_request : String → Verdict
bad_request text = abort 400 text

-- The tests of `ValidationMiddleware` on the decoded request.
unfoldable pub validate : List String → ChatRequest → GinContext → Verdict
validate allowed_models req c =
    if req.model == ""
    then bad_request "model is required"
    else if not (is_among req.model allowed_models)
    then bad_request ("unknown model: " <> req.model)
    else if eqb req.messages 0
    then bad_request "messages must not be empty"
    else if bad_temperature req.temperature
    then bad_request "temperature must be in range [0, 2]"
    else if bad_max_tokens req.max_tokens
    then bad_request "max_tokens must be a positive integer"
    else pass c

module _ (json : RequestJson) where
  abbrev pub validate_decoded : List String → Option ChatRequest → GinContext → Verdict
  validate_decoded allowed_models none c = bad_request "invalid json"
  validate_decoded allowed_models (some req) c = validate allowed_models req c

  abbrev pub validate_body : List String → Option String → GinContext → Verdict
  validate_body allowed_models none c = bad_request "failed to read request body"
  validate_body allowed_models (some body) c =
      validate_decoded allowed_models (json.chat_request body) c

  abbrev pub is_chat_path : GinContext → Bool
  is_chat_path c = has_prefix (codes "/v1/chat/completions") (codes c.path) && c.method == "POST"

  -- `ValidationMiddleware`.
  unfoldable pub validation_middleware : List String → GinContext → Verdict
  unfolding validate has_prefix
  validation_middleware allowed_models c =
      if not (is_chat_path c) then pass c else validate_body allowed_models c.body c

abbrev pub TemperatureFits : Option Float64 → Type 0
TemperatureFits none = Unit
TemperatureFits (some t) = (float_lt t float_zero ≡ false) × (float_lt float_two t ≡ false)

abbrev pub MaxTokensFits : Option ℤ → Type 0
MaxTokensFits none = Unit
MaxTokensFits (some n) = pos 0 <ℤ n

-- A known model, at least one message, a temperature that is not below 0 nor above 2, and a positive
-- number of tokens, where these two are given.
abbrev pub IsAcceptable : List String → ChatRequest → Type 0
IsAcceptable allowed_models req =
    (req.model ≢ "")
    × (Any (λ m. m ≡ req.model) allowed_models
        × ((req.messages ≢ 0) × (TemperatureFits req.temperature × MaxTokensFits req.max_tokens)))

temperature_fits : (t : Option Float64) → (bad_temperature t ≡ false) ↔ TemperatureFits t
temperature_fits none = (λ e. tt, λ h. refl)
temperature_fits (some t) = (λ e. (ground (arith, e), ground (arith, e)), λ (h, g). rw (h, g) refl)

max_tokens_fits : (n : Option ℤ) → (bad_max_tokens n ≡ false) ↔ MaxTokensFits n
max_tokens_fits none = (λ e. tt, λ h. refl)
max_tokens_fits (some n) = ground arith

pub validate-accepts :
    (allowed_models : List String) (req : ChatRequest) (c c' : GinContext)
    → validate allowed_models req c ≡ pass c'
    → IsAcceptable allowed_models req
unfolding validate
validate-accepts allowed_models req c c' e = elim (Bool-cases (req.model == "")) [
  | inl unnamed ↦ absurd (abort-ne-pass (rw unnamed at e))
  | inr named ↦ elim (Bool-cases (is_among req.model allowed_models)) [
    | inr unknown ↦ absurd (abort-ne-pass (rw (named, unknown) at e))
    | inl known ↦ elim (Bool-cases (eqb req.messages 0)) [
      | inl empty ↦ absurd (abort-ne-pass (rw (named, known, empty) at e))
      | inr filled ↦ elim (Bool-cases (bad_temperature req.temperature)) [
        | inl hot ↦ absurd (abort-ne-pass (rw (named, known, filled, hot) at e))
        | inr mild ↦ elim (Bool-cases (bad_max_tokens req.max_tokens)) [
          | inl few ↦ absurd (abort-ne-pass (rw (named, known, filled, mild, few) at e))
          | inr enough ↦ (
            λ q. ground (arith, q, named, eq_iff req.model ""),
            (
              is_among-Any req.model allowed_models known,
              (
                λ q. ground (arith, q, filled),
                (
                  (temperature_fits req.temperature).0 mild,
                  (max_tokens_fits req.max_tokens).0 enough,
                ),
              ),
            ),
          )
        ]
      ]
    ]
  ]
]

-- The validation hands a decoded request on exactly if it is acceptable.
pub validate-eq-pass_iff :
    (allowed_models : List String) (req : ChatRequest) (c : GinContext)
    → (validate allowed_models req c ≡ pass c) ↔ IsAcceptable allowed_models req
unfolding validate
validate-eq-pass_iff allowed_models req c = (
  validate-accepts allowed_models req c c,
  λ (named, (known, (filled, (mild, enough)))).
      let has_model : (req.model == "") ≡ false = ground (arith, named, eq_iff req.model "") in
      let some_messages : eqb req.messages 0 ≡ false = ground (arith, filled) in
      rw
        (
          has_model,
          Any-is_among req.model allowed_models known,
          (temperature_fits req.temperature).1 mild,
          (max_tokens_fits req.max_tokens).1 enough,
          some_messages,
        )
        refl,
)
