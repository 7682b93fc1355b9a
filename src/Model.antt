-- ===== src/Model.antt =====
-- internal/model: errors.go, request.go, provider.go.
-- A pointer that may be nil is an Option. Go's `error` is a value of `GoError`: a `*model.Error`, or
-- an error of any other type, of which the program reads the text alone.
use momu_llmgateway.Base.{ℕ, String, Bool, List, Option, ◌≡◌, ◌⊎◌, refl, inl, inr}
use momu_llmgateway.Base.Int.{ℤ}
use momu_llmgateway.Base.Float.{Float64}
use Prim.Native.String

abbrev pub err_code_invalid_request : String
err_code_invalid_request = "invalid_request"

abbrev pub err_code_authentication : String
err_code_authentication = "authentication_error"

abbrev pub err_code_rate_limit : String
err_code_rate_limit = "rate_limit_exceeded"

abbrev pub err_code_model_not_found : String
err_code_model_not_found = "model_not_found"

abbrev pub err_code_provider_error : String
err_code_provider_error = "provider_error"

abbrev pub err_code_circuit_open : String
err_code_circuit_open = "circuit_breaker_open"

abbrev pub err_code_timeout : String
err_code_timeout = "timeout"

abbrev pub err_code_fallback_exhausted : String
err_code_fallback_exhausted = "fallback_exhausted"

abbrev pub err_code_internal : String
err_code_internal = "internal_error"

-- `type Error`; its field `Type` is `kind` here.
pub record Error : Type 0 where
  pub code : String
  pub message : String
  pub kind : String

-- `NewError`.
abbrev pub new_error : String → String → Error
new_error code message = record { code = code; message = message; kind = code }

infixr 65 ◌<>◌
abbrev pub ◌<>◌ : String → String → String
s <> t = String.◌++◌ s t

pub data GoError : Type 0 where
  model_error : Error → GoError
  other_error : String → GoError

-- `Error()`: that of `model.Error`, or the text of the other error.
abbrev pub error_text : GoError → String
error_text (model_error e) = e.code <> ": " <> e.message
error_text (other_error text) = text

pub record Message : Type 0 where
  pub role : String
  pub content : String

-- `StandardRequest`. `MaxTokens` is a signed int, `Temperature` a float64.
pub record StandardRequest : Type 0 where
  pub request_id : String
  pub model : String
  pub messages : List Message
  pub stream : Bool
  pub temperature : Option Float64
  pub max_tokens : Option ℤ
  pub task_type : String
  pub metadata : List (String × String)

pub record Choice : Type 0 where
  pub index : ℕ
  pub message : Message
  pub finish_reason : String

pub record Usage : Type 0 where
  pub prompt_tokens : ℤ
  pub completion_tokens : ℤ
  pub total_tokens : ℤ

pub record StandardResponse : Type 0 where
  pub id : String
  pub model : String
  pub provider : String
  pub choices : List Choice
  pub usage : Usage
  pub cache_hit : Bool

pub record Delta : Type 0 where
  pub role : String
  pub content : String

pub record StreamChunk : Type 0 where
  pub id : String
  pub model : String
  pub delta : Delta
  pub done : Bool
  pub error : Option Error

-- A Go pair (value, error): one of the two is present.
pub data Result {ℓ} (A : Type ℓ) : Type ℓ where
  ok : A → Result A
  err : GoError → Result A

-- `type Provider`, its methods over a state of the world outside the gateway. The channel that
-- `SendStream` returns is the list of the chunks that it delivers.
pub record Provider (World : Type 0) : Type 0 where
  pub name : String
  pub models : List String
  pub send : StandardRequest → World → World × Result StandardResponse
  pub send_stream : StandardRequest → World → World × Result (List StreamChunk)
  pub health_check : World → World × Option GoError

-- To split on a computed result and keep the equation.
pub Result-cases {ℓ} :
    {A : Type ℓ} (r : Result A) → ((a : A) × (r ≡ ok a)) ⊎ ((e : GoError) × (r ≡ err e))
Result-cases (ok a) = inl (a, refl)
Result-cases (err e) = inr (e, refl)
