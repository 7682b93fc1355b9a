-- ===== src/Fallback/Phases.antt =====
-- `Execute` as the three stages of its documentation, one after the other: the primary call, the
-- retries with growing waits, the fallback chain. The code runs them as one loop with a flag.
use momu_llmgateway.Base.{
  ℕ, zero, suc, ◌+◌, String, Bool, true, false, ◌||◌, none, some, List, [], ◌∷◌, ◌++◌, map,
  replicate, if◌then◌else◌, ◌≡◌, refl, arith,
}
use momu_llmgateway.Base.Int.{pos_part}
use momu_llmgateway.Model.{ok, err}
use momu_llmgateway.Fallback.{
  Engine, retry_attempt, fallback_attempt, Context, Outcome, answered, failed, SendFunc, chain,
  is_retryable, default_response, backoff_duration, execute_from, execute,
}

module _ {S : Type 0} (ctx : Context S) (e : Engine) (send : SendFunc S) where
  -- The chain: one call for each model, with no provider named, until one answers.
  unfoldable pub try_fallbacks : List String → S → S × Outcome
  try_fallbacks [] s = (s, answered (default_response e) "fallback_exhausted")
  try_fallbacks (m ∷ ms) s = elim (ctx.error s) [
    | some error ↦ (s, failed error)
    | none ↦
        let (s', result) = send "" m s in
        elim result [ ok resp ↦ (s', answered resp "fallback") | err error ↦ try_fallbacks ms s' ]
  ]

  -- `k` more retries, the next one after a wait of the base duration times 2^n; then the chain.
  unfoldable pub try_retries : String → String → List String → ℕ → ℕ → S → S × Outcome
  unfolding try_fallbacks
  try_retries provider model ms zero n s = try_fallbacks ms s
  try_retries provider model ms (suc k) n s = elim (ctx.error s) [
    | some error ↦ (s, failed error)
    | none ↦
        let (s', wait_result) = ctx.wait (backoff_duration e n) s in
        elim wait_result [
          | some error ↦ (s', failed error)
          | none ↦
              let (s'', result) = send provider model s' in
              elim result [
                | ok resp ↦ (s'', answered resp "retry")
                | err error ↦ try_retries provider model ms k (n + 1) s''
              ]
        ]
  ]

  -- No retry is made, but the context is looked at if there would have been one.
  unfoldable pub leave_out_retries : List String → ℕ → S → S × Outcome
  unfolding try_fallbacks
  leave_out_retries ms zero s = try_fallbacks ms s
  leave_out_retries ms (suc k) s = elim (ctx.error s) [
    | some error ↦ (s, failed error)
    | none ↦ try_fallbacks ms s
  ]

  unfoldable pub phases : String → String → S → S × Outcome
  unfolding try_retries leave_out_retries
  phases provider model s = elim (ctx.error s) [
    | some error ↦ (s, failed error)
    | none ↦
        let (s', result) = send provider model s in
        elim result [
          | ok resp ↦ (s', answered resp "primary")
          | err error ↦
              if is_retryable (some error)
              then try_retries provider model (chain e model) (pos_part e.retry_max) 0 s'
              else leave_out_retries (chain e model) (pos_part e.retry_max) s'
        ]
  ]

  execute_from-fallbacks :
      (ms : List String) (n : ℕ) (skip : Bool) (s : S)
      → execute_from ctx e send (map fallback_attempt ms) n skip s ≡ try_fallbacks ms s
  unfolding execute_from try_fallbacks
  execute_from-fallbacks [] n skip s = refl
  execute_from-fallbacks (m ∷ ms) n skip s =
      ground (arith, execute_from-fallbacks ms n (skip || false) (send "" m s).0)

  execute_from-retries :
      (provider model : String) (ms : List String) (k n : ℕ) (s : S)
      → execute_from ctx e send
          (replicate k (retry_attempt provider model) ++ map fallback_attempt ms)
          n
          false
          s
        ≡ try_retries provider model ms k n s
  unfolding execute_from try_retries
  execute_from-retries provider model ms zero n s = execute_from-fallbacks ms n false s
  execute_from-retries provider model ms (suc k) n s =
      let s' = (ctx.wait (backoff_duration e n) s).0 in
      ground (arith, execute_from-retries provider model ms k (n + 1) (send provider model s').0)

  execute_from-skipped :
      (provider model : String) (ms : List String) (k n : ℕ) (s : S)
      → execute_from ctx e send
          (replicate k (retry_attempt provider model) ++ map fallback_attempt ms)
          n
          true
          s
        ≡ leave_out_retries ms k s
  unfolding execute_from leave_out_retries
  execute_from-skipped provider model ms zero n s = execute_from-fallbacks ms n true s
  execute_from-skipped provider model ms (suc zero) n s =
      ground (arith, execute_from-skipped provider model ms zero n s)
  execute_from-skipped provider model ms (suc (suc k)) n s =
      ground (arith, execute_from-skipped provider model ms (suc k) n s)

  -- `Execute` calls the primary provider; if that fails, and only if the error is retryable, it
  -- retries it up to `retryMax` times, the n-th time after a wait of 2^n times the base duration;
  -- then it calls the models of the chain in their order. The first answer is returned with the name
  -- of its stage, a done context ends the run with its error, and where nothing answers, the default
  -- response is returned.
  pub execute-eq-phases :
      (provider model : String) (s : S)
      → execute ctx e provider model (some send) s ≡ phases provider model s
  unfolding execute phases
  execute-eq-phases provider model s =
      let s' = (send provider model s).0 in
      ground (
        arith,
        execute_from-retries provider model (chain e model) (pos_part e.retry_max) 0 s',
        execute_from-skipped provider model (chain e model) (pos_part e.retry_max) 0 s',
      )
