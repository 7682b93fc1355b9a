-- ===== src/Ingress/Middleware/Pipeline.antt =====
-- The middlewares in the order of cmd/gateway/main.go, less the recovery and the log, and what each of
-- them asks of a request that it hands on.
pub mod Admission
use momu_llmgateway.Base.{
  String, Bool, true, false, not, Option, none, some, List, [], ◌∷◌, ◌==◌, eq_iff, if◌then◌else◌,
  Any, ◌≡◌, ◌≢◌, ◌⊎◌, inl, inr, refl, sym, ◌∙◌, ap, subst, arith, Bool-cases, Option-cases,
}
use momu_llmgateway.Base.Int.{ℤ, pos, leb_ℤ}
use momu_llmgateway.Config.{ApiKeyConfig}
use momu_llmgateway.Ingress.Middleware.{
  GinContext, Verdict, pass, abort, pass-injective, abort-ne-pass, ChatRequest, RequestJson,
  request_id_middleware, is_open_path,
}
use momu_llmgateway.Ingress.Middleware.Auth.{auth_middleware, extract_model_from_body}
use momu_llmgateway.Ingress.Middleware.Auth.Keys.{
  LastWith, MayUse, Authenticated, with_key, auth_middleware-Authenticated,
}
use momu_llmgateway.Ingress.Middleware.RateLimit.{SortedSets, admit, limited, rate_limit_middleware}
use momu_llmgateway.Ingress.Middleware.Validation.{
  validate, validate_body, validate_decoded, validate-accepts, is_chat_path, validation_middleware,
  IsAcceptable, validate-eq-pass_iff,
}
use momu_llmgateway.Model.{◌<>◌, Result, ok, err, StandardRequest}
use mathlib.Core.Option

-- A middleware behind others.
abbrev pub then_run : {R : Type 0} → (GinContext → R → R × Verdict) → R × Verdict → R × Verdict
then_run f (r, abort status text) = (r, abort status text)
then_run f (r, pass c) = f c r

module _ {R : Type 0} (json : RequestJson) (keys : List ApiKeyConfig)
    (redis : Option (SortedSets R)) (allowed_models : List String) where
  abbrev pub run_auth : GinContext → R → R × Verdict
  run_auth c r = (r, auth_middleware json keys c)

  abbrev pub run_rate_limit : ℤ → String → GinContext → R → R × Verdict
  run_rate_limit now member c r = rate_limit_middleware redis now member c r

  abbrev pub run_validation : GinContext → R → R × Verdict
  run_validation c r = (r, validation_middleware json allowed_models c)

  -- The chain of `r.Use`; the id, the instant and the random member are those of this request.
  unfoldable pub middleware_chain : String → ℤ → String → GinContext → R → R × Verdict
  unfolding request_id_middleware auth_middleware rate_limit_middleware validation_middleware
  middleware_chain id now member c r =
      then_run run_validation
        (then_run (run_rate_limit now member) (then_run run_auth (r, request_id_middleware id c)))

pub then_run-pass :
    {R : Type 0} (f : GinContext → R → R × Verdict) (x : R × Verdict) (c' : GinContext)
    → (then_run f x).1 ≡ pass c'
    → (c : GinContext) × ((x.1 ≡ pass c) × ((f c x.0).1 ≡ pass c'))
then_run-pass f (r, abort status text) c' e = absurd (abort-ne-pass e)
then_run-pass f (r, pass c) c' e = (c, (refl, e))

admit-pass :
    {R : Type 0} (redis : SortedSets R) (rate_key : String) (limit now : ℤ) (member : String)
    (c c' : GinContext) (x : R × Result ℤ)
    → (admit redis rate_key limit now member c x).1 ≡ pass c'
    → c ≡ c'
admit-pass redis rate_key limit now member c c' (r, err error) e = pass-injective e
admit-pass redis rate_key limit now member c c' (r, ok count) e =
    elim (Bool-cases (leb_ℤ limit count)) [
      | inl full ↦ absurd (abort-ne-pass (rw full at e))
      | inr free ↦ pass-injective (rw free at e)
    ]

limited-pass :
    {R : Type 0} (redis : SortedSets R) (now : ℤ) (member : String) (key : Option String)
    (limit : Option ℤ) (c c' : GinContext) (r : R)
    → (limited redis now member key limit c r).1 ≡ pass c'
    → c ≡ c'
limited-pass redis now member none limit c c' r e = pass-injective e
limited-pass redis now member (some key) none c c' r e = pass-injective e
limited-pass redis now member (some key) (some limit) c c' r e =
    elim (Bool-cases (leb_ℤ limit (pos 0))) [
      | inl off ↦ pass-injective (rw off at e)
      | inr on ↦ admit-pass redis ("ratelimit:" <> key) limit now member c c' _ (rw on at e)
    ]

-- The rate limit hands on the request as it is.
pub rate_limit_middleware-pass :
    {R : Type 0} (redis : Option (SortedSets R)) (now : ℤ) (member : String) (c c' : GinContext)
    (r : R)
    → (rate_limit_middleware redis now member c r).1 ≡ pass c'
    → c ≡ c'
unfolding rate_limit_middleware
rate_limit_middleware-pass none now member c c' r e = pass-injective e
rate_limit_middleware-pass (some redis) now member c c' r e =
    elim (Bool-cases (is_open_path c.path)) [
      | inl open_path ↦ pass-injective (rw open_path at e)
      | inr closed ↦
          limited-pass redis now member c.api_key c.api_key_rate_limit c c' r (rw closed at e)
    ]

module _ (json : RequestJson) where
  -- A body that the validation accepts, as it was decoded.
  abbrev pub Accepted : List String → Option String → Type 0
  Accepted allowed_models read =
      (body : String) × ((req : ChatRequest) × ((read ≡ some body)
          × ((json.chat_request body ≡ some req) × IsAcceptable allowed_models req)))

  validate-pass :
      (allowed_models : List String) (req : ChatRequest) (c c' : GinContext)
      → validate allowed_models req c ≡ pass c'
      → IsAcceptable allowed_models req × (c ≡ c')
  validate-pass allowed_models req c c' e =
      let h = validate-accepts allowed_models req c c' e in
      (h, pass-injective (sym ((validate-eq-pass_iff allowed_models req c).1 h) ∙ e))

  validate_body-pass :
      (allowed_models : List String) (read : Option String) (c c' : GinContext)
      → validate_body json allowed_models read c ≡ pass c'
      → Accepted allowed_models read × (c ≡ c')
  validate_body-pass allowed_models none c c' e = absurd (abort-ne-pass e)
  validate_body-pass allowed_models (some body) c c' e = decoded (json.chat_request body) refl e
    where
      decoded :
          (o : Option ChatRequest)
          → json.chat_request body ≡ o
          → validate_decoded json allowed_models o c ≡ pass c'
          → Accepted allowed_models (some body) × (c ≡ c')
      decoded none q e = absurd (abort-ne-pass e)
      decoded (some req) q e =
          let (h, same) = validate-pass allowed_models req c c' e in
          ((body, (req, (refl, (q, h)))), same)

  pub validation_middleware-pass :
      (allowed_models : List String) (c c' : GinContext)
      → is_chat_path json c ≡ true
      → validation_middleware json allowed_models c ≡ pass c'
      → Accepted allowed_models c.body × (c ≡ c')
  unfolding validation_middleware
  validation_middleware-pass allowed_models c c' chat e =
      validate_body-pass allowed_models c.body c c' (rw chat at e)
