-- ===== src/Fallback/Rule.antt =====
-- A rule for `Execute`: what holds of the state between two calls, and of the state and the outcome at
-- each of the places where the run ends, holds at the end.
use momu_llmgateway.Base.{
  ℕ, zero, suc, ◌+◌, String, none, some, List, [], ◌∷◌, ◌≡◌, inl, inr, Option-cases, Bool-cases,
}
use momu_llmgateway.Base.Int.{ℤ, pos_part}
use momu_llmgateway.Model.{GoError, ok, err, Result-cases, StandardResponse}
use momu_llmgateway.Fallback.{
  Engine, Context, Outcome, answered, failed, SendFunc, chain, default_response, execute,
  is_retryable, backoff_duration,
}
use momu_llmgateway.Fallback.Phases.{
  try_fallbacks, try_retries, leave_out_retries, phases, execute-eq-phases,
}

module _ {S : Type 0} (ctx : Context S) (e : Engine) (send : SendFunc S) where
  -- `I` holds between two calls, `R` of the final state and the outcome. A call with no provider named
  -- is a call of the chain.
  pub record Rule (I : S → Type 0) (R : S → Outcome → Type 0) : Type 0 where
    pub done : (s : S) (error : GoError) → I s → ctx.error s ≡ some error → R s (failed error)
    pub cut :
        (d : ℤ) (s : S) (error : GoError)
        → I s
        → (ctx.wait d s).1 ≡ some error
        → R (ctx.wait d s).0 (failed error)
    pub wait : (d : ℤ) (s : S) → I s → (ctx.wait d s).1 ≡ none → I (ctx.wait d s).0
    pub primary :
        (provider model : String) (s : S) (resp : StandardResponse)
        → I s
        → (send provider model s).1 ≡ ok resp
        → R (send provider model s).0 (answered resp "primary")
    pub retry :
        (provider model : String) (s : S) (resp : StandardResponse)
        → I s
        → (send provider model s).1 ≡ ok resp
        → R (send provider model s).0 (answered resp "retry")
    pub fallback :
        (model : String) (s : S) (resp : StandardResponse)
        → I s
        → (send "" model s).1 ≡ ok resp
        → R (send "" model s).0 (answered resp "fallback")
    pub failure :
        (provider model : String) (s : S) (error : GoError)
        → I s
        → (send provider model s).1 ≡ err error
        → I (send provider model s).0
    pub exhausted : (s : S) → I s → R s (answered (default_response e) "fallback_exhausted")

  module _ (I : S → Type 0) (R : S → Outcome → Type 0) (rule : Rule I R) where
    abbrev Ends : S × Outcome → Type 0
    Ends (s, outcome) = R s outcome

    fallbacks-Ends : (ms : List String) (s : S) → I s → Ends (try_fallbacks ctx e send ms s)
    unfolding try_fallbacks
    fallbacks-Ends [] s h = rule.exhausted s h
    fallbacks-Ends (m ∷ ms) s h = elim (Option-cases (ctx.error s)) [
      | inr (error, done) ↦ rw (done, try_fallbacks) (rule.done s error h done)
      | inl live ↦ elim (Result-cases (send "" m s).1) [
        | inl (resp, got) ↦ rw (live, got, try_fallbacks) (rule.fallback m s resp h got)
        | inr (error, failure) ↦
            rw (live, failure, try_fallbacks)
              (fallbacks-Ends ms (send "" m s).0 (rule.failure "" m s error h failure))
      ]
    ]

    retries-Ends :
        (provider model : String) (ms : List String) (k n : ℕ) (s : S)
        → I s
        → Ends (try_retries ctx e send provider model ms k n s)
    unfolding try_retries
    retries-Ends provider model ms zero n s h = fallbacks-Ends ms s h
    retries-Ends provider model ms (suc k) n s h = elim (Option-cases (ctx.error s)) [
      | inr (error, done) ↦ rw (done, try_retries) (rule.done s error h done)
      | inl live ↦
          let d = backoff_duration e n in
          let s' = (ctx.wait d s).0 in
          elim (Option-cases (ctx.wait d s).1) [
            | inr (error, cut) ↦ rw (live, cut, try_retries) (rule.cut d s error h cut)
            | inl fired ↦
                let h' = rule.wait d s h fired in
                elim (Result-cases (send provider model s').1) [
                  | inl (resp, got) ↦
                      rw (live, fired, got, try_retries) (rule.retry provider model s' resp h' got)
                  | inr (error, failure) ↦
                      rw (live, fired, failure, try_retries)
                        (retries-Ends provider model ms k (n + 1) (send provider model s').0
                          (rule.failure provider model s' error h' failure))
                ]
          ]
    ]

    leave_out_retries-Ends :
        (ms : List String) (k : ℕ) (s : S) → I s → Ends (leave_out_retries ctx e send ms k s)
    unfolding leave_out_retries
    leave_out_retries-Ends ms zero s h = fallbacks-Ends ms s h
    leave_out_retries-Ends ms (suc k) s h = elim (Option-cases (ctx.error s)) [
      | inr (error, done) ↦ rw (done, leave_out_retries) (rule.done s error h done)
      | inl live ↦ rw (live, leave_out_retries) (fallbacks-Ends ms s h)
    ]

    phases-Ends :
        (provider model : String) (s : S) → I s → Ends (phases ctx e send provider model s)
    unfolding phases
    phases-Ends provider model s h = elim (Option-cases (ctx.error s)) [
      | inr (error, done) ↦ rw (done, phases) (rule.done s error h done)
      | inl live ↦
          let s' = (send provider model s).0 in
          elim (Result-cases (send provider model s).1) [
            | inl (resp, got) ↦ rw (live, got, phases) (rule.primary provider model s resp h got)
            | inr (error, failure) ↦
                let h' = rule.failure provider model s error h failure in
                elim (Bool-cases (is_retryable (some error))) [
                  | inl again ↦
                      rw (live, failure, again, phases)
                        (retries-Ends provider model (chain e model) (pos_part e.retry_max) 0 s' h')
                  | inr never ↦
                      rw (live, failure, never, phases)
                        (leave_out_retries-Ends (chain e model) (pos_part e.retry_max) s' h')
                ]
          ]
    ]

    pub execute_rule :
        (provider model : String) (s : S)
        → I s
        → R
            (execute ctx e provider model (some send) s).0
            (execute ctx e provider model (some send) s).1
    execute_rule provider model s h =
        rw (execute-eq-phases ctx e send provider model s) (phases-Ends provider model s h)
