-- ===== src/Ingress/Service/Degrading.antt =====
-- The service with the degradation engine: whether it ends in an error, and whether the fallback chain
-- ever answers.
use momu_llmgateway.Base.{
  String, Bool, true, false, Option, none, some, ◌≡◌, refl, inl, inr, Bool-cases,
}
use momu_llmgateway.Base.Int.{ℤ}
use momu_llmgateway.Decision.Router.{RouteDecision}
use momu_llmgateway.Fallback.{Engine, Context, Outcome, answered, failed, SendFunc, execute}
use momu_llmgateway.Fallback.Promise.{
  IsAnswered, NotByChain, execute-IsAnswered, execute-NotByChain,
}
use momu_llmgateway.Ingress.Service.{
  Services, CacheOps, build_send_fn, provider_missing, executed, run_allowed, run_routed,
  run_missed, run_cached, handle_chat_completion,
}
use momu_llmgateway.Model.{
  model_error, other_error, Result, ok, err, StandardRequest, StandardResponse,
}

-- If no provider bears the empty name, no request is ever answered by the fallback chain: the attempts
-- of the chain name no provider, and the service's send function refuses such a call.
pub build_send_fn-NotByChain :
    {S : Type 0} (svc : Services S) (ctx : Context S) (e : Engine) (req : StandardRequest)
    (provider model : String) (s : S)
    → svc.provider_lookup "" ≡ none
    → NotByChain (execute ctx e provider model (some (build_send_fn svc req)) s).1
build_send_fn-NotByChain svc ctx e req provider model s absent =
    execute-NotByChain ctx e (build_send_fn svc req) provider model s
      (λ m t. (provider_missing "", unfold build_send_fn in rw absent refl))

-- The errors that the HTTP handlers can turn into a reply.
abbrev pub IsModelError : {A : Type 0} → Result A → Type 0
IsModelError (ok a) = Unit
IsModelError (err (model_error error)) = Unit
IsModelError (err (other_error text)) = ⊥

module _ {S : Type 0} (svc : Services S) (ctx : Context S) (e : Engine)
    (wired : (provider model : String) (send : Option (SendFunc S)) (s : S)
      → svc.execute provider model send s ≡ execute ctx e provider model send s)
    (live : (s : S) → ctx.error s ≡ none) (fires : (d : ℤ) (s : S) → (ctx.wait d s).1 ≡ none)
    (routes : (req : StandardRequest) (s : S) → IsModelError (svc.route req s).1) where
  executed-IsModelError :
      (req : StandardRequest) (dec : RouteDecision) (x : S × Outcome)
      → IsAnswered x.1
      → IsModelError (executed svc req dec x).1
  executed-IsModelError req dec (s, answered resp level) h = tt
  executed-IsModelError req dec (s, failed error) h = absurd h

  run_allowed-IsModelError :
      (req : StandardRequest) (dec : RouteDecision) (x : S × Bool)
      → IsModelError (run_allowed svc req dec x).1
  run_allowed-IsModelError req dec (s, true) = executed-IsModelError req dec _ (
      rw (wired dec.provider_name dec.model (some (build_send_fn svc req)) s)
        (execute-IsAnswered ctx e (build_send_fn svc req) dec.provider_name dec.model s live fires))
  run_allowed-IsModelError req dec (s, false) = tt

  run_routed-IsModelError :
      (req : StandardRequest) (x : S × Result RouteDecision)
      → IsModelError x.1
      → IsModelError (run_routed svc req x).1
  run_routed-IsModelError req (s, ok dec) h =
      run_allowed-IsModelError req dec (svc.allow dec.provider_name dec.model s)
  run_routed-IsModelError req (s, err (model_error error)) h = tt
  run_routed-IsModelError req (s, err (other_error text)) h = absurd h

  run_cached-IsModelError :
      (cache : Option (CacheOps S)) (req : StandardRequest) (s : S)
      → IsModelError (run_cached svc cache req s).1
  run_cached-IsModelError none req s = run_routed-IsModelError req (svc.route req s) (routes req s)
  run_cached-IsModelError (some cache) req s = missed (cache.lookup req s)
    where
      missed : (x : S × Option StandardResponse) → IsModelError (run_missed svc req x).1
      missed (t, some resp) = tt
      missed (t, none) = run_routed-IsModelError req (svc.route req t) (routes req t)

  -- Where the engine of internal/fallback is wired in, its context is never done, its waits end, and the
  -- errors of the router are of the model package, a chat completion ends with a response or with a
  -- `*model.Error`, which is what the HTTP handler takes every error to be.
  pub handle_chat_completion-IsModelError :
      (req : StandardRequest) (s : S) → IsModelError (handle_chat_completion svc req s).1
  unfolding handle_chat_completion
  handle_chat_completion-IsModelError req s = elim (Bool-cases req.stream) [
    | inl streaming ↦ simp streaming tt
    | inr plain ↦ simp plain (run_cached-IsModelError svc.cache req s)
  ]
