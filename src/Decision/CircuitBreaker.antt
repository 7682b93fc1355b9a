-- ===== src/Decision/CircuitBreaker.antt =====
-- internal/decision/circuitbreaker.go. A method that mutates `*CircuitBreaker` returns the new
-- record; the mutex makes each method one step. Instants are nanoseconds on the monotonic clock,
-- handed in by the caller. The failure counter is left unbounded: an int64 that is raised by one at
-- a failure does not wrap before 2^63 failures.
pub mod History
pub mod Spec
use momu_llmgateway.Base.{ℕ, ◌+◌, Bool, true, false, ◌&&◌, not, if◌then◌else◌}
use momu_llmgateway.Base.Int.{ℤ, pos, sub_ℕ, leb_ℤ}

pub data CircuitState : Type 0 where
  closed opened half_open : CircuitState

pub record CircuitBreaker : Type 0 where
  pub threshold : ℤ
  pub cooldown : ℤ
  pub failures : ℕ
  pub state : CircuitState
  pub opened_at : ℕ

-- `NewCircuitBreaker`. The zero `time.Time` of `openedAt` is read only once it has been set.
unfoldable pub new : ℤ → ℤ → CircuitBreaker
new threshold cooldown = record {
  threshold = threshold;
  cooldown = cooldown;
  failures = 0;
  state = closed;
  opened_at = 0;
}

abbrev pub is_opened : CircuitState → Bool
is_opened opened = true
is_opened _ = false

-- `time.Since(cb.openedAt) >= cb.cooldown`.
abbrev pub cooled_down : ℤ → ℕ → ℕ → Bool
cooled_down cooldown opened_at now = leb_ℤ cooldown (sub_ℕ now opened_at)

-- `Allow`.
unfoldable pub allow : ℕ → CircuitBreaker → CircuitBreaker × Bool
allow now cb =
    if is_opened cb.state && cooled_down cb.cooldown cb.opened_at now
    then (record cb { state = half_open }, true)
    else (cb, not (is_opened cb.state))

-- `RecordSuccess`.
unfoldable pub record_success : CircuitBreaker → CircuitBreaker
record_success cb = record cb { failures = 0; state = closed }

-- `RecordFailure`.
unfoldable pub record_failure : ℕ → CircuitBreaker → CircuitBreaker
record_failure now cb =
    let failures = cb.failures + 1 in
    if leb_ℤ cb.threshold (pos failures)
    then record cb { failures = failures; state = opened; opened_at = now }
    else record cb { failures = failures }
