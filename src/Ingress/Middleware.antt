-- ===== src/Ingress/Middleware.antt =====
-- What the middlewares of internal/ingress share: the request as gin hands it on, with the keys that
-- were set on it, and how a middleware ends. A body that cannot be read stays so. encoding/json is
-- `RequestJson`.
pub mod Auth
pub mod Pipeline
pub mod RateLimit
pub mod Validation
use momu_llmgateway.Base.{String, Bool, ℕ, Option, none, some, List, ◌==◌, ◌||◌, ◌≡◌}
use momu_llmgateway.Base.Float.{Float64}
use momu_llmgateway.Base.Int.{ℤ}
use momu_llmgateway.Model.{StandardRequest}

pub record GinContext : Type 0 where
  pub path : String
  pub method : String
  pub authorization : String
  pub body : Option String
  pub request_id : Option String
  pub api_key : Option String
  pub api_key_name : Option String
  pub api_key_rate_limit : Option ℤ

-- `c.Next()`, or `c.AbortWithStatusJSON` with the status and the field `error`.
pub data Verdict : Type 0 where
  pass : GinContext → Verdict
  abort : ℕ → String → Verdict

-- The struct that the validation decodes; of the messages only the number is read.
pub record ChatRequest : Type 0 where
  pub model : String
  pub messages : ℕ
  pub temperature : Option Float64
  pub max_tokens : Option ℤ

-- What the three decoders of a body make of it; none is an error.
pub record RequestJson : Type 0 where
  pub model_field : String → Option String
  pub chat_request : String → Option ChatRequest
  pub standard_request : String → Option StandardRequest

-- The paths that authentication and the rate limit let through.
abbrev pub is_open_path : String → Bool
is_open_path path = path == "/health" || path == "/metrics"

-- `RequestIDMiddleware`, with what `NewRequestID` returns.
unfoldable pub request_id_middleware : String → GinContext → Verdict
request_id_middleware id c = pass (record c { request_id = Option.some id })

pub pass-injective : {c d : GinContext} → pass c ≡ pass d → c ≡ d
pass-injective e = cc

pub abort-ne-pass : {status : ℕ} {text : String} {c : GinContext} → abort status text ≡ pass c → ⊥
abort-ne-pass e = cc
