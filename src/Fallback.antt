-- ===== src/Fallback.antt =====
-- internal/fallback/engine.go: the degradation engine.
-- `Execute` runs over a state `S` of all that a call can see or change. The context and the timer are
-- outside the repository: `Context` gives what `ctx.Err()` reports in a state, and how the `select`
-- on the timer and `ctx.Done()` ends.
pub mod Phases
pub mod Promise
pub mod Rule
pub mod Trace
mod Tests
use momu_llmgateway.Base.{
  ℕ, zero, suc, ◌+◌, ◌^◌, String, Bool, true, false, not, ◌&&◌, ◌||◌, Option, none, some, List, [],
  ◌∷◌, ◌++◌, map, replicate, ◌==◌, if◌then◌else◌,
}
use momu_llmgateway.Base.Dict.{lookup, get}
use momu_llmgateway.Base.Int.{ℤ, pos, pos_part, leb_ℤ, scale}
use momu_llmgateway.Base.Text.{codes, lower_codes, contains}
use momu_llmgateway.Model.{
  GoError, model_error, other_error, error_text, Result, ok, err, StandardResponse, new_error,
  err_code_invalid_request, err_code_authentication, err_code_rate_limit, err_code_model_not_found,
  err_code_provider_error, err_code_circuit_open, err_code_timeout, err_code_internal,
}

abbrev pub default_retry_max : ℤ
default_retry_max = pos 2

abbrev pub default_retry_backoff : ℤ
default_retry_backoff = pos 1000000000

abbrev pub default_fallback_message : String
default_fallback_message = "所有模型服务暂时不可用，请稍后重试。"

abbrev pub retryable_errors : List String
retryable_errors =
    "connection refused" ∷ "connection reset" ∷ "i/o timeout" ∷ "deadline exceeded"
    ∷ "unexpected eof" ∷ "no such host" ∷ "timeout" ∷ []

pub record Attempt : Type 0 where
  pub provider_name : String
  pub model : String
  pub level : String

pub record Engine : Type 0 where
  pub chains : List (String × List String)
  pub retry_max : ℤ
  pub retry_backoff : ℤ
  pub default_msg : String

abbrev chains_or_empty : Option (List (String × List String)) → List (String × List String)
chains_or_empty none = []
chains_or_empty (some chains) = chains

-- `NewEngine`; a nil map is `none`.
unfoldable pub new_engine : Option (List (String × List String)) → ℤ → ℤ → String → Engine
new_engine chains retry_max retry_backoff default_msg = record {
  chains = chains_or_empty chains;
  retry_max = if leb_ℤ retry_max (pos 0) then default_retry_max else retry_max;
  retry_backoff = if leb_ℤ retry_backoff (pos 0) then default_retry_backoff else retry_backoff;
  default_msg = if default_msg == "" then default_fallback_message else default_msg;
}

-- `Chain`. The copy that it returns is a value here.
unfoldable pub chain : Engine → String → List String
unfolding lookup
chain e model = get (lookup model e.chains)

abbrev pub retry_attempt : String → String → Attempt
retry_attempt provider_name model = record {
  provider_name = provider_name;
  model = model;
  level = "retry";
}

abbrev pub fallback_attempt : String → Attempt
fallback_attempt model = record { provider_name = ""; model = model; level = "fallback" }

-- `Attempts`. The counted loop makes `retryMax` rounds, none if it is negative.
unfoldable pub attempts : Engine → String → String → List Attempt
attempts e provider_name model =
    record { provider_name = provider_name; model = model; level = "primary" }
    ∷ (replicate (pos_part e.retry_max) (retry_attempt provider_name model)
        ++ map fallback_attempt (chain e model))

-- `DefaultResponse`.
unfoldable pub default_response : Engine → StandardResponse
default_response e = record {
  id = "";
  model = "";
  provider = "";
  choices =
      record {
        index = 0;
        message = record { role = "assistant"; content = e.default_msg };
        finish_reason = "stop";
      }
      ∷ [];
  usage = record { prompt_tokens = pos 0; completion_tokens = pos 0; total_tokens = pos 0 };
  cache_hit = false;
}

-- The loop over `retryableErrors`.
pub mentions : List String → List ℕ → Bool
unfolding contains
mentions [] msg = false
mentions (pattern ∷ patterns) msg = contains (codes pattern) msg || mentions patterns msg

abbrev pub is_permanent_code : String → Bool
is_permanent_code code =
    code == err_code_invalid_request
    || code == err_code_authentication
    || code == err_code_rate_limit
    || code == err_code_model_not_found

abbrev is_transient_code : String → Bool
is_transient_code code =
    code == err_code_provider_error || code == err_code_timeout || code == err_code_circuit_open

-- `IsRetryable`; a nil error is `none`.
unfoldable pub is_retryable : Option GoError → Bool
unfolding mentions lower_codes
is_retryable none = false
is_retryable (some (model_error e)) =
    if is_permanent_code e.code
    then false
    else if is_transient_code e.code
    then true
    else mentions retryable_errors (lower_codes (error_text (model_error e)))
is_retryable (some (other_error text)) = mentions retryable_errors (lower_codes text)

-- `BackoffDuration`, for a product below 2^63 ns and a backoff below 2^53 ns: the float64 product
-- with a power of two is exact there.
unfoldable pub backoff_duration : Engine → ℕ → ℤ
backoff_duration e attempt = scale (2 ^ attempt) e.retry_backoff

-- The three results of `Execute`.
pub data Outcome : Type 0 where
  answered : StandardResponse → String → Outcome
  failed : GoError → Outcome

-- `SendFunc`, with the effects of a call on the state.
abbrev pub SendFunc : Type 0 → Type 0
SendFunc S = String → String → S → S × Result StandardResponse

pub record Context (S : Type 0) : Type 0 where
  pub error : S → Option GoError
  -- Wait for a duration: `none` if the timer fired, the error of the context if that is done first.
  pub wait : ℤ → S → S × Option GoError

-- What comes before a send: the end of the loop, the next round, or the send, with the next
-- `retryAttempt`.
pub data Before (S : Type 0) : Type 0 where
  stop : S → GoError → Before S
  skip : Before S
  go : S → ℕ → Before S

module _ {S : Type 0} (ctx : Context S) (e : Engine) where
  abbrev waited : ℕ → S × Option GoError → Before S
  waited n (s, some error) = stop s error
  waited n (s, none) = go s (n + 1)

  -- `ctx.Err()` and the part under `att.Level == "retry"`.
  before_send : Attempt → ℕ → Bool → S → Before S
  before_send att n skip_retries s = elim (ctx.error s) [
    | some error ↦ stop s error
    | none ↦
        if att.level == "retry"
        then (if skip_retries then skip else waited n (ctx.wait (backoff_duration e n) s))
        else go s n
  ]

  -- The loop of `Execute`: `n` is `retryAttempt`.
  execute_from : SendFunc S → List Attempt → ℕ → Bool → S → S × Outcome
  unfolding before_send
  execute_from send [] n skip_retries s = (s, answered (default_response e) "fallback_exhausted")
  execute_from send (att ∷ atts) n skip_retries s = elim (before_send att n skip_retries s) [
    | stop s' error ↦ (s', failed error)
    | skip ↦ execute_from send atts n skip_retries s
    | go s' n' ↦
        let (s'', result) = send att.provider_name att.model s' in
        elim result [
          | ok resp ↦ (s'', answered resp att.level)
          | err error ↦
              execute_from send atts n'
                (skip_retries || (att.level == "primary" && not (is_retryable (some error)))) s''
        ]
  ]

  abbrev send_missing : S → S × Outcome
  send_missing s = (s, failed (model_error (new_error err_code_internal "send function is nil")))

  -- `Execute`; a nil `sendFn` is `none`.
  unfoldable pub execute : String → String → Option (SendFunc S) → S → S × Outcome
  unfolding execute_from attempts
  execute provider_name model none s = send_missing s
  execute provider_name model (some send) s =
      execute_from send (attempts e provider_name model) 0 false s
