-- ===== src/Decision/CircuitBreaker/History.antt =====
-- The calls that a breaker has seen, as the independent description of its state: how many failures
-- have come in a row, when the last one came, and whether a probe was let through since.
use momu_llmgateway.Base.{ℕ, ◌+◌, Bool, false, ◌||◌, List, [], ◌∷◌, if◌then◌else◌, eqb}
use momu_llmgateway.Base.Int.{ℤ, pos, ltb_ℤ}
use momu_llmgateway.Decision.CircuitBreaker.{
  CircuitBreaker, CircuitState, closed, opened, half_open, new, allow, record_success,
  record_failure, cooled_down,
}

-- A call with the instant at which it runs.
pub data Call : Type 0 where
  allow_call success_call failure_call : ℕ → Call

unfoldable pub step : Call → CircuitBreaker → CircuitBreaker
unfolding allow record_success record_failure
step (allow_call now) cb = (allow now cb).0
step (success_call now) cb = record_success cb
step (failure_call now) cb = record_failure now cb

-- The breaker after a history, whose newest call is its head.
unfoldable pub replay : ℤ → ℤ → List Call → CircuitBreaker
unfolding new
replay threshold cooldown [] = new threshold cooldown
replay threshold cooldown (c ∷ h) = step c (replay threshold cooldown h)

-- The failures since the last success.
abbrev pub streak : List Call → ℕ
streak [] = 0
streak (allow_call now ∷ h) = streak h
streak (success_call now ∷ h) = 0
streak (failure_call now ∷ h) = streak h + 1

-- The instant of the last failure, 0 if there was none.
abbrev pub last_failure : List Call → ℕ
last_failure [] = 0
last_failure (allow_call now ∷ h) = last_failure h
last_failure (success_call now ∷ h) = last_failure h
last_failure (failure_call now ∷ h) = now

-- Whether an `Allow` came after the cooldown of the last failure.
abbrev pub probed : ℤ → List Call → Bool
probed cooldown [] = false
probed cooldown (allow_call now ∷ h) =
    probed cooldown h || cooled_down cooldown (last_failure h) now
probed cooldown (success_call now ∷ h) = false
probed cooldown (failure_call now ∷ h) = false

-- Fewer failures in a row than the threshold, or none at all.
abbrev pub is_healthy : ℤ → List Call → Bool
is_healthy threshold h = eqb (streak h) 0 || ltb_ℤ (pos (streak h)) threshold

abbrev pub expected_state : ℤ → ℤ → List Call → CircuitState
expected_state threshold cooldown h =
    if is_healthy threshold h then closed else if probed cooldown h then half_open else opened
