-- ===== src/Witnesses/Serving.antt =====
-- The degradation engine and the chat service at concrete providers.
use momu_llmgateway.Base.{
  ◌↔◌, String, true, false, Option, none, some, List, [], ◌∷◌, ◌==◌, ◌≡◌, ◌≢◌, inl, inr, refl,
  arith, eq_iff, subst, Bool-cases, if◌then◌else◌,
}
use momu_llmgateway.Decision.Router.{RouteDecision}
use momu_llmgateway.Fallback.{execute}
use momu_llmgateway.Fallback.Phases.{phases, execute-eq-phases}
use momu_llmgateway.Fallback.Promise.{IsAnswered, NotByChain, IfOk, execute-IsAnswered}
use momu_llmgateway.Ingress.Handler.{handle_stream, panicked}
use momu_llmgateway.Ingress.Handler.Streams.{IsForeign, handle_stream-panicked_iff}
use momu_llmgateway.Ingress.Service.{
  Services, CacheOps, build_send_fn, forward, handle_chat_completion,
}
use momu_llmgateway.Ingress.Service.Caching.{Keeps, handle_chat_completion-Keeps}
use momu_llmgateway.Ingress.Service.Degrading.{
  IsModelError, build_send_fn-NotByChain, handle_chat_completion-IsModelError,
}
use momu_llmgateway.Ingress.Service.Streaming.{repeat, forward_lem}
use momu_llmgateway.Model.{
  Provider, StandardRequest, StandardResponse, StreamChunk, Error, new_error,
  err_code_provider_error, ok,
}
use mathlib.Core.Option.{some-injective, none-ne-some}
use momu_llmgateway.Witnesses.{
  World, hello, provider_a, provider_b, engine, live_context, send_large,
}

execute-eq-phases_example :
    execute live_context engine "b" "small" (some send_large) []
    ≡ phases live_context engine send_large "b" "small" []
execute-eq-phases_example = execute-eq-phases live_context engine send_large "b" "small" []

execute-IsAnswered_example :
    IsAnswered (execute live_context engine "b" "small" (some send_large) []).1
execute-IsAnswered_example =
    execute-IsAnswered live_context engine send_large "b" "small" [] (λ s. refl) (λ d s. refl)

-- The decision is always for `small` of `b`; every call is allowed.
abbrev small_of_b : RouteDecision
small_of_b = record { provider_name = "b"; model = "small"; strategy = "default" }

abbrev provider_named : String → Option (Provider World)
provider_named name =
    if name == "a" then some provider_a else if name == "b" then some provider_b else none

-- A cache that holds nothing, and notes what it is handed.
abbrev noting_cache : CacheOps World
noting_cache = record {
  lookup = λ req s. (s, none);
  store = λ req resp s. ((if resp.id == "" then "default" else "stored") ∷ s, none);
}

abbrev services : Services World
services = record {
  route = λ req s. (s, ok small_of_b);
  allow = λ provider model s. (s, true);
  record_success = λ provider model s. "success" ∷ s;
  record_failure = λ provider model s. "failure" ∷ s;
  cache = some noting_cache;
  execute = λ provider model send s. execute live_context engine provider model send s;
  provider_lookup = provider_named;
  count = λ metric s. s;
}

-- No default response has gone into the cache.
abbrev NoDefault : World → Type 0
NoDefault [] = Unit
NoDefault (call ∷ s) = (call ≢ "default") × NoDefault s

-- A response of a provider has an id.
abbrev HasId : StandardResponse → Type 0
HasId resp = resp.id ≢ ""

a-HasId :
    (req : StandardRequest) (s : World)
    → NoDefault s
    → NoDefault (provider_a.send req s).0 × IfOk HasId (provider_a.send req s).1
a-HasId req s h =
    ((λ e. ground (arith, e, eq_iff "send" "default"), h), λ e. ground (arith, e, eq_iff "1" ""))

b-HasId :
    (req : StandardRequest) (s : World)
    → NoDefault s
    → NoDefault (provider_b.send req s).0 × IfOk HasId (provider_b.send req s).1
b-HasId req s h = ((λ e. ground (arith, e, eq_iff "failed" "default"), h), tt)

provider_named-HasId :
    (name : String) (p : Provider World)
    → provider_named name ≡ some p
    → (req : StandardRequest) (s : World) → NoDefault s
    → NoDefault (p.send req s).0 × IfOk HasId (p.send req s).1
provider_named-HasId name p found req s h = elim (Bool-cases (name == "a")) [
  | inl a ↦
      subst (λ q. NoDefault (q.send req s).0 × IfOk HasId (q.send req s).1)
        (some-injective provider_a p (rw a at found)) (a-HasId req s h)
  | inr not_a ↦ elim (Bool-cases (name == "b")) [
    | inl b ↦
        subst (λ q. NoDefault (q.send req s).0 × IfOk HasId (q.send req s).1)
          (some-injective provider_b p (rw (not_a, b) at found)) (b-HasId req s h)
    | inr not_b ↦ absurd (none-ne-some p (rw (not_a, not_b) at found))
  ]
]

services-Keeps : Keeps services live_context engine NoDefault HasId
services-Keeps = record {
  wired = λ provider model send s. refl;
  wait = λ d s h. (λ e. ground (arith, e, eq_iff "wait" "default"), h);
  route = λ req s h. h;
  allow = λ provider model s h. h;
  success = λ provider model s h. (λ e. ground (arith, e, eq_iff "success" "default"), h);
  failure = λ provider model s h. (λ e. ground (arith, e, eq_iff "failure" "default"), h);
  count = λ metric s h. h;
  send = provider_named-HasId;
  relabel = λ resp provider model q. q;
  lookup = λ cache found req s h.
      subst (λ c. NoDefault (c.lookup req s).0) (some-injective noting_cache cache found) h;
  store = λ cache found req resp s h q.
      subst (λ c. NoDefault (c.store req resp s).0) (some-injective noting_cache cache found)
        (λ e. ground (arith, e, q, eq_iff "stored" "default", eq_iff resp.id ""), h);
}

handle_chat_completion-Keeps_example : NoDefault (handle_chat_completion services hello []).0
handle_chat_completion-Keeps_example =
    handle_chat_completion-Keeps services live_context engine NoDefault HasId services-Keeps hello
      [] tt

build_send_fn-NotByChain_example :
    NotByChain (execute live_context engine "b" "small" (some (build_send_fn services hello)) []).1
build_send_fn-NotByChain_example =
    build_send_fn-NotByChain services live_context engine hello "b" "small" [] refl

handle_chat_completion-IsModelError_example :
    IsModelError (handle_chat_completion services hello []).1
handle_chat_completion-IsModelError_example =
    handle_chat_completion-IsModelError services live_context engine (λ provider model send s. refl)
      (λ s. refl) (λ d s. refl) (λ req s. tt) hello []

abbrev chunk : Option Error → StreamChunk
chunk error = record {
  id = "1";
  model = "small";
  delta = record { role = "assistant"; content = "hi" };
  done = false;
  error = error;
}

abbrev chunks : List StreamChunk
chunks = chunk none ∷ chunk (some (new_error err_code_provider_error "cut")) ∷ chunk none ∷ []

forward_example :
    forward services "b" "small" chunks false [] ≡ repeat 1 (services.record_failure "b" "small") []
forward_example = forward_lem services "b" "small" chunks []

abbrev broken : Error
broken = new_error err_code_provider_error "cut"

handle_stream-panicked_iff_example :
    ((handle_stream services true hello []).1 ≡ panicked)
    ↔ IsForeign (provider_b.send_stream (record hello { stream = true }) []).1
handle_stream-panicked_iff_example =
    handle_stream-panicked_iff services true hello small_of_b provider_b [] [] [] refl refl refl
