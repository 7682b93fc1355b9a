-- ===== src/Decision/CircuitBreaker/Spec.antt =====
-- The breaker against its history.
use momu_llmgateway.Base.{
  ℕ, true, false, ◌||◌, ◌⊎◌, inl, inr, Bool-cases, List, [], ◌∷◌, ◌≡◌, arith,
}
use momu_llmgateway.Base.Int.{ℤ}
use momu_llmgateway.Decision.CircuitBreaker.{CircuitBreaker, allow, cooled_down}
use momu_llmgateway.Decision.CircuitBreaker.History.{
  Call, allow_call, success_call, failure_call, step, replay, streak, last_failure, probed,
  is_healthy, expected_state,
}

-- What the fields of the breaker are, given its history.
record Follows (threshold cooldown : ℤ) (h : List Call) (cb : CircuitBreaker) : Type 0 where
  same_threshold : cb.threshold ≡ threshold
  same_cooldown : cb.cooldown ≡ cooldown
  counted : cb.failures ≡ streak h
  state : cb.state ≡ expected_state threshold cooldown h
  dated : is_healthy threshold h ≡ false → cb.opened_at ≡ last_failure h

step-Follows :
    (threshold cooldown : ℤ) (c : Call) (h : List Call) (cb : CircuitBreaker)
    → Follows threshold cooldown h cb
    → Follows threshold cooldown (c ∷ h) (step c cb)
unfolding step
step-Follows threshold cooldown (allow_call now) h cb f = ground arith
step-Follows threshold cooldown (success_call now) h cb f = ground arith
step-Follows threshold cooldown (failure_call now) h cb f = ground arith

replay-Follows :
    (threshold cooldown : ℤ) (h : List Call)
    → Follows threshold cooldown h (replay threshold cooldown h)
unfolding replay
replay-Follows threshold cooldown [] = ground arith
replay-Follows threshold cooldown (c ∷ h) =
    step-Follows threshold cooldown c h (replay threshold cooldown h)
      (replay-Follows threshold cooldown h)

-- After every history of calls the breaker counts the failures since the last success, is closed
-- while these are none or fewer than the threshold, half-open once a call was let through after the
-- cooldown of the last failure, and open otherwise; while it is not closed, it holds the instant of
-- the last failure.
pub replay-eq-expected_state :
    (threshold cooldown : ℤ) (h : List Call)
    → ((replay threshold cooldown h).failures ≡ streak h)
      × ((replay threshold cooldown h).state ≡ expected_state threshold cooldown h)
      × ((is_healthy threshold h ≡ true)
          ⊎ ((replay threshold cooldown h).opened_at ≡ last_failure h))
replay-eq-expected_state threshold cooldown h =
    let f = replay-Follows threshold cooldown h in
    (
      f.counted,
      f.state,
      elim (Bool-cases (is_healthy threshold h)) [
        | inl healthy ↦ inl healthy
        | inr failing ↦ inr (f.dated failing)
      ],
    )

allow-Follows :
    (threshold cooldown : ℤ) (now : ℕ) (h : List Call) (cb : CircuitBreaker)
    → Follows threshold cooldown h cb
    → (allow now cb).1
      ≡ (is_healthy threshold h || (probed cooldown h || cooled_down cooldown (last_failure h) now))
unfolding allow
allow-Follows threshold cooldown now h cb f = ground arith

-- After every history `Allow` lets a call through exactly if the failures in a row are none or
-- below the threshold, or a call was let through after the cooldown of the last failure, or that
-- cooldown is over now.
pub allow-replay :
    (threshold cooldown : ℤ) (now : ℕ) (h : List Call)
    → (allow now (replay threshold cooldown h)).1
      ≡ (is_healthy threshold h || (probed cooldown h || cooled_down cooldown (last_failure h) now))
allow-replay threshold cooldown now h =
    allow-Follows threshold cooldown now h (replay threshold cooldown h)
      (replay-Follows threshold cooldown h)
