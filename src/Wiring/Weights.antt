-- ===== src/Wiring/Weights.antt =====
-- The weights of the candidates that `main` builds, in whole numbers.
use momu_llmgateway.Base.{String, List, [], ◌∷◌, map, ◌≡◌, refl, ap₂, arith, if◌then◌else◌}
use momu_llmgateway.Base.Dict.{lookup}
use momu_llmgateway.Base.Int.{ℤ, pos, negsuc, pos_part, leb_ℤ, ◌+ℤ◌, ◌*ℤ◌}
use momu_llmgateway.Config.{ProviderConfig}
use momu_llmgateway.Decision.Balancer.{BalancerConfig, effective_weight}
use momu_llmgateway.Decision.Balancer.Rounds.{int_num}
use momu_llmgateway.Decision.Balancer.Selection.{Weights}
use momu_llmgateway.Egress.Anthropic.{AnthropicJson}
use momu_llmgateway.Egress.Http.{HttpClient}
use momu_llmgateway.Egress.OpenAi.{OpenAiJson}
use momu_llmgateway.Model.{Provider}
use momu_llmgateway.Wiring.{base_weight, candidate_of, build_candidates}

times_one : (a : ℤ) → (a *ℤ pos 1) ≡ a
unfolding ◌*ℤ◌
times_one (pos n) = ground arith
times_one (negsuc n) = ground arith

times_zero : (a : ℤ) → (a *ℤ pos 0) ≡ pos 0
unfolding ◌*ℤ◌
times_zero (pos n) = ground arith
times_zero (negsuc n) = ground arith

load_of_none : (pos 1 +ℤ pos 0) +ℤ pos 0 ≡ pos 1
unfolding ◌+ℤ◌
load_of_none = refl

not_negative : (a : ℤ) → (if leb_ℤ a (pos 0) then pos 0 else a) ≡ pos (pos_part a)
not_negative (pos n) = ground arith
not_negative (negsuc n) = ground arith

module _ {W : Type 0} (anthropic : AnthropicJson) (open_ai : OpenAiJson) (http : ℤ → HttpClient W)
    (pcs : List (String × ProviderConfig)) (cfg : BalancerConfig ℤ) where
  abbrev weight_of : Provider W → ℤ
  weight_of p = base_weight anthropic open_ai http int_num (lookup p.name pcs)

  effective_weight-candidate_of :
      (model : String) (p : Provider W)
      → effective_weight int_num cfg (candidate_of anthropic open_ai http int_num pcs model p)
        ≡ pos (pos_part (weight_of p))
  unfolding effective_weight
  effective_weight-candidate_of model p =
      rw
        (
          times_one (weight_of p),
          times_zero cfg.concurrency_penalty_coefficient,
          times_zero cfg.latency_penalty_coefficient,
          load_of_none,
          times_one (weight_of p),
          times_one (weight_of p),
        )
        (not_negative (weight_of p))

  -- In whole numbers, whatever penalties the balancer is configured with, the effective weights of
  -- the candidates of the wiring are the configured ones, with 0 for a negative weight and 100 for a
  -- provider that is not configured.
  pub build_candidates-Weights :
      (model : String) (ps : List (Provider W))
      → Weights cfg
          (build_candidates anthropic open_ai http int_num pcs ps model)
          (map (λ p. pos_part (weight_of p)) ps)
  unfolding build_candidates
  build_candidates-Weights model [] = refl
  build_candidates-Weights model (p ∷ ps) =
      ap₂ ◌∷◌ (effective_weight-candidate_of model p) (build_candidates-Weights model ps)
