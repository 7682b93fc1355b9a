-- ===== src/Fallback/Trace.antt =====
-- Which calls `Execute` makes: the engine over a state that also logs each call of the send function.
use momu_llmgateway.Base.{
  ℕ, zero, suc, ◌+◌, String, Option, some, List, [], ◌∷◌, ◌++◌, map, replicate, if◌then◌else◌, ◌≡◌,
  refl, sym, ap, ◌∙◌, Option-cases, Bool-cases, inl, inr,
}
use momu_llmgateway.Base.Int.{pos_part}
use momu_llmgateway.Model.{GoError, Result, ok, err, StandardResponse, Result-cases}
use momu_llmgateway.Fallback.{
  Engine, Context, SendFunc, chain, is_retryable, backoff_duration, execute,
}
use momu_llmgateway.Fallback.Phases.{
  try_fallbacks, try_retries, leave_out_retries, phases, execute-eq-phases,
}
use mathlib.Core.List.{append-nil, append_assoc}

abbrev pub Log : Type 0
Log = List (String × String)

-- The log has grown by a first part of the plan.
abbrev pub Extends : Log → Log → Log → Type 0
Extends log log' plan =
    (calls : Log) × (rest : Log) × (log' ≡ log ++ calls) × (calls ++ rest ≡ plan)

Extends-none : (log plan : Log) → Extends log log plan
Extends-none log plan = ([], plan, sym (append-nil log), refl)

Extends-cons :
    (log log' plan : Log) (call : String × String)
    → Extends (log ++ call ∷ []) log' plan
    → Extends log log' (call ∷ plan)
Extends-cons log log' plan call (calls, rest, p, q) =
    (call ∷ calls, rest, p ∙ append_assoc log (call ∷ []) calls, ap (◌∷◌ call) q)

abbrev pub fallback_call : String → String × String
fallback_call model = ("", model)

-- The retries that may follow the result of the primary call.
abbrev pub retries_after : Engine → Result StandardResponse → ℕ
retries_after e (ok resp) = pos_part e.retry_max
retries_after e (err error) = if is_retryable (some error) then pos_part e.retry_max else 0

abbrev pub plan_after : Engine → String → String → Result StandardResponse → Log
plan_after e provider model result =
    (provider, model)
    ∷ (replicate (retries_after e result) (provider, model) ++ map fallback_call (chain e model))

module _ {W : Type 0} (ctx : Context W) (e : Engine) (send : SendFunc W) where
  -- The send function, logged.
  abbrev pub logged_send : SendFunc (W × Log)
  logged_send provider model (w, log) =
      let (w', result) = send provider model w in ((w', log ++ (provider, model) ∷ []), result)

  abbrev with_log : Log → W × Option GoError → (W × Log) × Option GoError
  with_log log (w, result) = ((w, log), result)

  abbrev pub logged_context : Context (W × Log)
  logged_context = record {
    error = λ s. ctx.error s.0;
    wait = λ d s. with_log s.1 (ctx.wait d s.0);
  }

  fallbacks-Extends :
      (ms : List String) (w : W) (log : Log)
      → Extends log
          (try_fallbacks logged_context e logged_send ms (w, log)).0.1
          (map fallback_call ms)
  unfolding try_fallbacks
  fallbacks-Extends [] w log = Extends-none log []
  fallbacks-Extends (m ∷ ms) w log = elim (Option-cases (ctx.error w)) [
    | inr (error, done) ↦ rw (done, try_fallbacks) (Extends-none log _)
    | inl live ↦
        let w' = (send "" m w).0 in
        let log' = log ++ fallback_call m ∷ [] in
        Extends-cons log _ (map fallback_call ms) (fallback_call m)
          (elim (Result-cases (send "" m w).1) [
            | inl (resp, answer) ↦ rw (live, answer, try_fallbacks) (Extends-none log' _)
            | inr (error, failure) ↦
                rw (live, failure, try_fallbacks) (fallbacks-Extends ms w' log')
          ])
  ]

  retries-Extends :
      (provider model : String) (ms : List String) (k n : ℕ) (w : W) (log : Log)
      → Extends log
          (try_retries logged_context e logged_send provider model ms k n (w, log)).0.1
          (replicate k (provider, model) ++ map fallback_call ms)
  unfolding try_retries
  retries-Extends provider model ms zero n w log = fallbacks-Extends ms w log
  retries-Extends provider model ms (suc k) n w log = elim (Option-cases (ctx.error w)) [
    | inr (error, done) ↦ rw (done, try_retries) (Extends-none log _)
    | inl live ↦
        let (w', wait_result) = ctx.wait (backoff_duration e n) w in
        elim (Option-cases wait_result) [
          | inr (error, done) ↦ rw (live, done, try_retries) (Extends-none log _)
          | inl fired ↦
              let (w'', result) = send provider model w' in
              let log' = log ++ (provider, model) ∷ [] in
              Extends-cons log _ (replicate k (provider, model) ++ map fallback_call ms)
                (provider, model)
                (elim (Result-cases result) [
                  | inl (resp, answer) ↦ rw (live, fired, answer, try_retries) (Extends-none log' _)
                  | inr (error, failure) ↦
                      rw (live, fired, failure, try_retries)
                        (retries-Extends provider model ms k (n + 1) w'' log')
                ])
        ]
  ]

  leave_out_retries-Extends :
      (ms : List String) (k : ℕ) (w : W) (log : Log)
      → Extends log
          (leave_out_retries logged_context e logged_send ms k (w, log)).0.1
          (map fallback_call ms)
  unfolding leave_out_retries
  leave_out_retries-Extends ms zero w log = fallbacks-Extends ms w log
  leave_out_retries-Extends ms (suc k) w log = elim (Option-cases (ctx.error w)) [
    | inr (error, done) ↦ rw (done, leave_out_retries) (Extends-none log _)
    | inl live ↦ rw (live, leave_out_retries) (fallbacks-Extends ms w log)
  ]

  phases-Extends :
      (provider model : String) (w : W)
      → Extends []
          (phases logged_context e logged_send provider model (w, [])).0.1
          (plan_after e provider model (send provider model w).1)
  unfolding phases
  phases-Extends provider model w = elim (Option-cases (ctx.error w)) [
    | inr (error, done) ↦ rw (done, phases) (Extends-none [] _)
    | inl live ↦
        let (w', result) = send provider model w in
        let log' = (provider, model) ∷ [] in
        Extends-cons [] _ _ (provider, model)
          (elim (Result-cases result) [
            | inl (resp, answer) ↦ rw (live, answer, phases) (Extends-none log' _)
            | inr (error, failure) ↦ elim (Bool-cases (is_retryable (some error))) [
              | inl again ↦
                  rw (live, failure, again, phases)
                    (retries-Extends provider model (chain e model) (pos_part e.retry_max) 0 w'
                      log')
              | inr never ↦
                  rw (live, failure, never, phases)
                    (leave_out_retries-Extends (chain e model) (pos_part e.retry_max) w' log')
            ]
          ])
  ]

  -- The calls that `Execute` makes are a first part of this list: the primary call; the retries,
  -- `retryMax` times the same call, but none if the primary call failed with an error that is not
  -- retryable; one call for each model of the chain, in its order, with the empty provider name.
  pub execute-Extends :
      (provider model : String) (w : W)
      → Extends []
          (execute logged_context e provider model (some logged_send) (w, [])).0.1
          (plan_after e provider model (send provider model w).1)
  execute-Extends provider model w =
      rw (execute-eq-phases logged_context e logged_send provider model (w, []))
        (phases-Extends provider model w)
