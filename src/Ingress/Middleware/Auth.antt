-- ===== src/Ingress/Middleware/Auth.antt =====
-- internal/ingress/middleware_auth.go: bearer keys, and the models that a key may use.
pub mod Keys
use momu_llmgateway.Base.{
  String, Bool, true, false, not, ◌||◌, Option, none, some, List, [], ◌∷◌, ◌==◌, if◌then◌else◌,
}
use momu_llmgateway.Base.Dict.{lookup, insert, is_among}
use momu_llmgateway.Base.Text.{cut_text}
use momu_llmgateway.Config.{ApiKeyConfig}
use momu_llmgateway.Ingress.Middleware.{GinContext, Verdict, pass, abort, RequestJson, is_open_path}
use mathlib.Core.Option

-- The map `allowed`: a key that stands twice has the configuration that comes last.
unfoldable pub allowed_keys :
    List ApiKeyConfig → List (String × ApiKeyConfig) → List (String × ApiKeyConfig)
allowed_keys [] allowed = allowed
allowed_keys (k ∷ ks) allowed = allowed_keys ks (insert k.key k allowed)

-- `strings.TrimPrefix(header, "Bearer ")`.
unfoldable pub bearer_token : String → String
unfolding cut_text
bearer_token header = Option.get_or (cut_text "Bearer " header) header

module _ (json : RequestJson) where
  abbrev pub model_or_empty : Option String → String
  model_or_empty none = ""
  model_or_empty (some body) = Option.get_or (json.model_field body) ""

  -- `extractModelFromBody`; the body is put back as it was read.
  unfoldable pub extract_model_from_body : GinContext → String
  extract_model_from_body c = model_or_empty c.body

  abbrev pub is_wildcard : List String → Bool
  is_wildcard (m ∷ []) = m == "*"
  is_wildcard _ = false

  -- `modelAllowed`.
  unfoldable pub model_allowed : List String → GinContext → Bool
  unfolding extract_model_from_body
  model_allowed allowed_models c =
      let model = extract_model_from_body c in
      if is_wildcard allowed_models
      then true
      else if model == ""
      then true
      else is_among model allowed_models

  -- What follows the look-up of the token.
  abbrev pub authorize : String → Option ApiKeyConfig → GinContext → Verdict
  authorize token none c = abort 401 "invalid api key"
  authorize token (some cfg) c =
      if token == "" || token == c.authorization
      then abort 401 "invalid api key"
      else if model_allowed cfg.allowed_models c
      then pass (record c {
        api_key = Option.some token;
        api_key_name = Option.some cfg.name;
        api_key_rate_limit = Option.some cfg.rate_limit;
      })
      else abort 403 "model_not_allowed"

  -- `AuthMiddleware`.
  unfoldable pub auth_middleware : List ApiKeyConfig → GinContext → Verdict
  unfolding allowed_keys bearer_token model_allowed lookup
  auth_middleware keys c =
      let token = bearer_token c.authorization in
      if is_open_path c.path
      then pass c
      else authorize token (lookup token (allowed_keys keys [])) c
