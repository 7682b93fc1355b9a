-- ===== src/Ingress/Breakers.antt =====
-- circuitBreakerManagerImpl of internal/ingress/service.go: one breaker for each provider and model.
-- The map holds pointers, so a method of the breaker that `getOrCreate` returns is a write to the
-- entry; the locks make `getOrCreate` and each method of a breaker one step.
pub mod Isolation
pub mod Keys
use momu_llmgateway.Base.{ℕ, String, Bool, Option, none, some, List, []}
use momu_llmgateway.Base.Dict.{lookup, insert}
use momu_llmgateway.Base.Int.{ℤ}
use momu_llmgateway.Model.{◌<>◌}
use momu_llmgateway.Decision.CircuitBreaker
use momu_llmgateway.Decision.CircuitBreaker.{CircuitBreaker}

pub record Manager : Type 0 where
  pub breakers : List (String × CircuitBreaker)
  pub threshold : ℤ
  pub cooldown : ℤ

-- `NewCircuitBreakerManager`.
unfoldable pub new_manager : ℤ → ℤ → Manager
new_manager threshold cooldown = record {
  breakers = [];
  threshold = threshold;
  cooldown = cooldown;
}

-- `key`.
unfoldable pub key : String → String → String
key provider model = provider <> "/" <> model

abbrev pub found_or_new : ℤ → ℤ → Option CircuitBreaker → CircuitBreaker
found_or_new threshold cooldown (some cb) = cb
found_or_new threshold cooldown none = CircuitBreaker.new threshold cooldown

-- The breaker that `getOrCreate` returns. That it enters a new one into the map shows in the write
-- of the method that is called on it.
unfoldable pub get_or_create : String → Manager → CircuitBreaker
get_or_create k m = found_or_new m.threshold m.cooldown (lookup k m.breakers)

abbrev pub put : String → CircuitBreaker → Manager → Manager
put k cb m = record m { breakers = insert k cb m.breakers }

-- `Allow`.
unfoldable pub allow : ℕ → String → String → Manager → Manager × Bool
unfolding get_or_create
allow now provider model m =
    let k = key provider model in
    let (cb, allowed) = CircuitBreaker.allow now (get_or_create k m) in (put k cb m, allowed)

-- `RecordSuccess`.
unfoldable pub record_success : String → String → Manager → Manager
unfolding get_or_create
record_success provider model m =
    let k = key provider model in put k (CircuitBreaker.record_success (get_or_create k m)) m

-- `RecordFailure`.
unfoldable pub record_failure : ℕ → String → String → Manager → Manager
unfolding get_or_create
record_failure now provider model m =
    let k = key provider model in put k (CircuitBreaker.record_failure now (get_or_create k m)) m
