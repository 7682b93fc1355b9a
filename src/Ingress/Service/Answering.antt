-- ===== src/Ingress/Service/Answering.antt =====
-- What a chat completion ends with where the router decides.
use momu_llmgateway.Base.{String, Bool, true, false, Option, none, some, ◌≡◌, refl}
use momu_llmgateway.Base.Int.{ℤ}
use momu_llmgateway.Decision.Router.{RouteDecision}
use momu_llmgateway.Fallback.{Engine, Context, Outcome, answered, failed, SendFunc, execute}
use momu_llmgateway.Fallback.Promise.{IsAnswered, execute-IsAnswered}
use momu_llmgateway.Ingress.Service.{
  Services, CacheOps, build_send_fn, circuit_open, executed, run_allowed, run_routed, run_missed,
  run_cached, handle_chat_completion,
}
use momu_llmgateway.Model.{Result, ok, err, StandardRequest, StandardResponse}

-- A response, or the refusal of a circuit breaker.
abbrev pub IsAnswerOrOpen : Result StandardResponse → Type 0
IsAnswerOrOpen (ok resp) = Unit
IsAnswerOrOpen (err error) =
    (provider : String) × ((model : String) × (error ≡ circuit_open provider model))

module _ {S : Type 0} (svc : Services S) (ctx : Context S) (e : Engine)
    (wired : (provider model : String) (send : Option (SendFunc S)) (s : S)
      → svc.execute provider model send s ≡ execute ctx e provider model send s)
    (live : (s : S) → ctx.error s ≡ none) (fires : (d : ℤ) (s : S) → (ctx.wait d s).1 ≡ none)
    (req : StandardRequest)
    (routes : (s : S) → (dec : RouteDecision) × ((svc.route req s).1 ≡ ok dec)) where
  executed-IsAnswerOrOpen :
      (dec : RouteDecision) (x : S × Outcome)
      → IsAnswered x.1
      → IsAnswerOrOpen (executed svc req dec x).1
  executed-IsAnswerOrOpen dec (s, answered resp level) h = tt
  executed-IsAnswerOrOpen dec (s, failed error) h = absurd h

  run_allowed-IsAnswerOrOpen :
      (dec : RouteDecision) (x : S × Bool) → IsAnswerOrOpen (run_allowed svc req dec x).1
  run_allowed-IsAnswerOrOpen dec (s, true) = executed-IsAnswerOrOpen dec _ (
      rw (wired dec.provider_name dec.model (some (build_send_fn svc req)) s)
        (execute-IsAnswered ctx e (build_send_fn svc req) dec.provider_name dec.model s live fires))
  run_allowed-IsAnswerOrOpen dec (s, false) = (dec.provider_name, (dec.model, refl))

  run_routed-IsAnswerOrOpen :
      (x : S × Result RouteDecision)
      → ((dec : RouteDecision) × (x.1 ≡ ok dec))
      → IsAnswerOrOpen (run_routed svc req x).1
  run_routed-IsAnswerOrOpen (s, ok dec) h =
      run_allowed-IsAnswerOrOpen dec (svc.allow dec.provider_name dec.model s)
  run_routed-IsAnswerOrOpen (s, err error) (dec, decided) = absurd cc

  run_cached-IsAnswerOrOpen :
      (cache : Option (CacheOps S)) (s : S) → IsAnswerOrOpen (run_cached svc cache req s).1
  run_cached-IsAnswerOrOpen none s = run_routed-IsAnswerOrOpen (svc.route req s) (routes s)
  run_cached-IsAnswerOrOpen (some cache) s = missed (cache.lookup req s)
    where
      missed : (x : S × Option StandardResponse) → IsAnswerOrOpen (run_missed svc req x).1
      missed (t, some resp) = tt
      missed (t, none) = run_routed-IsAnswerOrOpen (svc.route req t) (routes t)

  -- A request that asks for no stream is answered or refused by a breaker, if the router decides.
  pub handle_chat_completion-IsAnswerOrOpen :
      (s : S) → req.stream ≡ false → IsAnswerOrOpen (handle_chat_completion svc req s).1
  unfolding handle_chat_completion
  handle_chat_completion-IsAnswerOrOpen s plain = simp plain (run_cached-IsAnswerOrOpen svc.cache s)
