-- ===== src/Witnesses/Breaking.antt =====
-- The circuit breaker and its manager at concrete calls.
use momu_llmgateway.Base.{List, [], ◌∷◌, ◌≡◌, ◌||◌, refl}
use momu_llmgateway.Base.Int.{pos}
use momu_llmgateway.Decision.CircuitBreaker.{allow, cooled_down}
use momu_llmgateway.Decision.CircuitBreaker.History.{
  Call, allow_call, success_call, failure_call, replay, last_failure, probed, is_healthy,
}
use momu_llmgateway.Decision.CircuitBreaker.Spec.{allow-replay}
use momu_llmgateway.Ingress.Breakers.{get_or_create, key}
use momu_llmgateway.Ingress.Breakers.Isolation.{
  ManagerCall, manager_replay, calls_of, get_or_create-manager_replay,
}

-- Two failures, and a call after the cooldown.
abbrev calls : List Call
calls = allow_call 40 ∷ failure_call 20 ∷ failure_call 10 ∷ success_call 5 ∷ []

allow-replay_example : (allow 41 (replay (pos 2) (pos 15) calls)).1 ≡ (
    is_healthy (pos 2) calls
    || (probed (pos 15) calls || cooled_down (pos 15) (last_failure calls) 41))
allow-replay_example = allow-replay (pos 2) (pos 15) 41 calls

abbrev manager_calls : List ManagerCall
manager_calls =
    ("a", "large", success_call 30)
    ∷ ("a", "small", failure_call 20)
    ∷ ("b", "small", failure_call 10)
    ∷ []

get_or_create-manager_replay_example :
    get_or_create "a/small" (manager_replay (pos 1) (pos 15) manager_calls)
    ≡ replay (pos 1) (pos 15) (calls_of "a/small" manager_calls)
get_or_create-manager_replay_example =
    get_or_create-manager_replay (pos 1) (pos 15) "a/small" manager_calls

same_key : key "a" "b/c" ≡ key "a" "b/c"
same_key = refl
