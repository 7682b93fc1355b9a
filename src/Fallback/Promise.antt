-- ===== src/Fallback/Promise.antt =====
-- What `Execute` promises its caller, what it keeps true of the state, and what the chain needs of the
-- send function: three uses of the rule.
use momu_llmgateway.Base.{String, none, some, eq_iff, ◌≡◌, ◌≢◌, ◌⊎◌, inl, inr, refl, arith}
use momu_llmgateway.Base.Int.{ℤ}
use momu_llmgateway.Model.{GoError, Result, ok, err, StandardResponse}
use momu_llmgateway.Fallback.{
  Engine, Context, Outcome, answered, failed, SendFunc, default_response, execute,
}
use momu_llmgateway.Fallback.Rule.{execute_rule}

-- A response, not an error.
abbrev pub IsAnswered : Outcome → Type 0
IsAnswered (answered resp level) = Unit
IsAnswered (failed error) = ⊥

-- Not an answer of the fallback chain.
abbrev pub NotByChain : Outcome → Type 0
NotByChain (answered resp level) = level ≢ "fallback"
NotByChain (failed error) = Unit

abbrev pub IfOk : (StandardResponse → Type 0) → Result StandardResponse → Type 0
IfOk Q (ok resp) = Q resp
IfOk Q (err error) = Unit

-- An answer is one of the send function's, or the default response under its own level.
abbrev pub Answer : (StandardResponse → Type 0) → Engine → Outcome → Type 0
Answer Q e (failed error) = Unit
Answer Q e (answered resp level) =
    (Q resp × (level ≢ "fallback_exhausted"))
    ⊎ ((resp ≡ default_response e) × (level ≡ "fallback_exhausted"))

-- Where its context is never done and its waits end, `Execute` with a send function ends with a response and never with an error, whatever
-- the providers do.
pub execute-IsAnswered :
    {S : Type 0} (ctx : Context S) (e : Engine) (send : SendFunc S) (provider model : String)
    (s : S)
    → ((s : S) → ctx.error s ≡ none)
    → ((d : ℤ) (s : S) → (ctx.wait d s).1 ≡ none)
    → IsAnswered (execute ctx e provider model (some send) s).1
execute-IsAnswered ctx e send provider model s live fires =
    execute_rule ctx e send (λ s. Unit {0}) (λ s outcome. IsAnswered outcome)
      (record {
        done = λ s error h p. cc (live s);
        cut = λ d s error h p. cc (fires d s);
        wait = λ d s h p. tt;
        primary = λ provider model s resp h p. tt;
        retry = λ provider model s resp h p. tt;
        fallback = λ model s resp h p. tt;
        failure = λ provider model s error h p. tt;
        exhausted = λ s h. tt;
      })
      provider model s tt

-- Where the send function refuses every call that names no provider, no answer comes from the chain.
pub execute-NotByChain :
    {S : Type 0} (ctx : Context S) (e : Engine) (send : SendFunc S) (provider model : String)
    (s : S)
    → ((model : String) (s : S) → (error : GoError) × ((send "" model s).1 ≡ err error))
    → NotByChain (execute ctx e provider model (some send) s).1
execute-NotByChain ctx e send provider model s refused =
    execute_rule ctx e send (λ s. Unit {0}) (λ s outcome. NotByChain outcome)
      (record {
        done = λ s error h p. tt;
        cut = λ d s error h p. tt;
        wait = λ d s h p. tt;
        primary = λ provider model s resp h p. ground (arith, eq_iff "primary" "fallback");
        retry = λ provider model s resp h p. ground (arith, eq_iff "retry" "fallback");
        fallback = λ model s resp h p. cc (p, (refused model s).1);
        failure = λ provider model s error h p. tt;
        exhausted = λ s h. ground (arith, eq_iff "fallback_exhausted" "fallback");
      })
      provider model s tt

module _ {S : Type 0} (P : S → Type 0) (Q : StandardResponse → Type 0) (ctx : Context S)
    (e : Engine) (send : SendFunc S) (waits : (d : ℤ) (s : S) → P s → P (ctx.wait d s).0)
    (sends : (provider model : String) (s : S)
      → P s
      → P (send provider model s).0 × IfOk Q (send provider model s).1) where
  IfOk-ok :
      (provider model : String) (s : S) (resp : StandardResponse)
      → P s
      → (send provider model s).1 ≡ ok resp
      → Q resp
  IfOk-ok provider model s resp h p = rw p at (sends provider model s h).1

  -- What the waits and the calls of the send function keep true of the state, `Execute` keeps true.
  -- It ends with an error, with a response that the send function gave, or with the default
  -- response, and the last alone bears the level `fallback_exhausted`.
  pub execute-Answer :
      (provider model : String) (s : S)
      → P s
      → P (execute ctx e provider model (some send) s).0
        × Answer Q e (execute ctx e provider model (some send) s).1
  execute-Answer provider model s h =
      execute_rule ctx e send P (λ s outcome. P s × Answer Q e outcome)
        (record {
          done = λ s error h p. (h, tt);
          cut = λ d s error h p. (waits d s h, tt);
          wait = λ d s h p. waits d s h;
          primary = λ provider model s resp h p. (
            (sends provider model s h).0,
            inl (
              IfOk-ok provider model s resp h p,
              ground (arith, eq_iff "primary" "fallback_exhausted"),
            ),
          );
          retry = λ provider model s resp h p. (
            (sends provider model s h).0,
            inl (
              IfOk-ok provider model s resp h p,
              ground (arith, eq_iff "retry" "fallback_exhausted"),
            ),
          );
          fallback = λ model s resp h p. (
            (sends "" model s h).0,
            inl (
              IfOk-ok "" model s resp h p,
              ground (arith, eq_iff "fallback" "fallback_exhausted"),
            ),
          );
          failure = λ provider model s error h p. (sends provider model s h).0;
          exhausted = λ s h. (h, inr (refl, refl));
        })
        provider model s h
