-- ===== src/Ingress/Service/Caching.antt =====
-- An invariant rule for a chat completion: what every collaborator keeps true of the state, the
-- service keeps true, and only what the providers answered goes into the cache.
use momu_llmgateway.Base.{
  String, Bool, true, false, Option, none, some, ◌≡◌, ◌⊎◌, ◌==◌, eq_iff, refl, inl, inr, ◌∙◌, sym,
  Bool-cases,
}
use mathlib.Core.Bool.{false≢true}
use momu_llmgateway.Base.Int.{ℤ}
use momu_llmgateway.Decision.Router.{RouteDecision}
use momu_llmgateway.Fallback.{Engine, Context, Outcome, answered, failed, SendFunc, execute}
use momu_llmgateway.Fallback.Promise.{IfOk, Answer, execute-Answer}
use momu_llmgateway.Ingress.Service.{
  Services, CacheOps, Metric, build_send_fn, send_found, send_allowed, sent, executed, run_allowed,
  run_routed, run_missed, run_cached, stored, count_answer, counted_level, with_provider,
  handle_chat_completion,
}
use momu_llmgateway.Model.{Result, ok, err, StandardRequest, StandardResponse, Provider}

module _ {S : Type 0} (svc : Services S) (ctx : Context S) (e : Engine) (P : S → Type 0)
    (Q : StandardResponse → Type 0) where
  -- Every collaborator keeps `P`; the responses of the providers have `Q`, which does not depend on
  -- the names of the provider and the model; and the cache is only sure to keep `P` when it is
  -- handed a response with `Q`.
  pub record Keeps : Type 0 where
    pub wired :
        (provider model : String) (send : Option (SendFunc S)) (s : S)
        → svc.execute provider model send s ≡ execute ctx e provider model send s
    pub wait : (d : ℤ) (s : S) → P s → P (ctx.wait d s).0
    pub route : (req : StandardRequest) (s : S) → P s → P (svc.route req s).0
    pub allow : (provider model : String) (s : S) → P s → P (svc.allow provider model s).0
    pub success : (provider model : String) (s : S) → P s → P (svc.record_success provider model s)
    pub failure : (provider model : String) (s : S) → P s → P (svc.record_failure provider model s)
    pub count : (metric : Metric) (s : S) → P s → P (svc.count metric s)
    pub send :
        (name : String) (p : Provider S)
        → svc.provider_lookup name ≡ some p
        → (req : StandardRequest) (s : S) → P s
        → P (p.send req s).0 × IfOk Q (p.send req s).1
    pub relabel :
        (resp : StandardResponse) (provider model : String)
        → Q resp
        → Q (record resp { provider = provider; model = model })
    pub lookup :
        (cache : CacheOps S)
        → svc.cache ≡ some cache
        → (req : StandardRequest) (s : S) → P s
        → P (cache.lookup req s).0
    pub store :
        (cache : CacheOps S)
        → svc.cache ≡ some cache
        → (req : StandardRequest) (resp : StandardResponse) (s : S) → P s
        → Q resp
        → P (cache.store req resp s).0

  module _ (k : Keeps) where
    sent-Keeps :
        (provider model : String) (x : S × Result StandardResponse)
        → P x.0 × IfOk Q x.1
        → P (sent svc provider model x).0 × IfOk Q (sent svc provider model x).1
    sent-Keeps provider model (s, ok resp) (h, q) =
        (k.success provider model s h, k.relabel resp provider _ q)
    sent-Keeps provider model (s, err error) (h, q) = (k.failure provider model s h, tt)

    build_send_fn-Keeps :
        (req : StandardRequest) (provider model : String) (s : S)
        → P s
        → P (build_send_fn svc req provider model s).0
          × IfOk Q (build_send_fn svc req provider model s).1
    unfolding build_send_fn
    build_send_fn-Keeps req provider model s h = found (svc.provider_lookup provider) refl
      where
        allowed :
            (p : Provider S) (x : S × Bool)
            → svc.provider_lookup provider ≡ some p
            → P x.0
            → P (send_allowed svc req p provider model x).0
              × IfOk Q (send_allowed svc req p provider model x).1
        allowed p (t, true) same g =
            sent-Keeps provider model _
              (k.send provider p same (record req { model = model; stream = false }) t g)
        allowed p (t, false) same g = (g, tt)

        found :
            (o : Option (Provider S))
            → svc.provider_lookup provider ≡ o
            → P (send_found svc req o provider model s).0
              × IfOk Q (send_found svc req o provider model s).1
        found none same = (h, tt)
        found (some p) same =
            allowed p (svc.allow provider model s) same (k.allow provider model s h)

    count_answer-Keeps :
        (level : String) (resp : StandardResponse) (req : StandardRequest) (dec : RouteDecision)
        (s : S)
        → P s
        → P (count_answer svc level resp req dec s)
    count_answer-Keeps level resp req dec s h =
        k.count _ _ (k.count _ _ (k.count _ _ (leveled (k.count _ s h))))
      where
        leveled : {t : S} → P t → P (counted_level svc level req dec t)
        leveled {t} g = elim (Bool-cases (level == "fallback_exhausted")) [
          | inl exhausted ↦ rw exhausted g
          | inr other ↦ elim (Bool-cases (level == "primary")) [
            | inl primary ↦ rw (other, primary) g
            | inr retried ↦ rw (other, retried) (k.count _ t g)
          ]
        ]

    stored-Keeps :
        (level : String) (req : StandardRequest) (resp : StandardResponse) (s : S)
        → P s
        → Q resp ⊎ (level ≡ "fallback_exhausted")
        → P (stored svc svc.cache level req resp s)
    stored-Keeps level req resp s h q = go svc.cache refl
      where
        go :
            (cache : Option (CacheOps S))
            → svc.cache ≡ cache
            → P (stored svc cache level req resp s)
        go none same = h
        go (some cache) same = elim (Bool-cases (level == "fallback_exhausted")) [
          | inl exhausted ↦ rw exhausted h
          | inr other ↦ rw other (elim q [
            | inl good ↦ k.store cache same req resp s h good
            | inr bad ↦ absurd (false≢true (sym other ∙ (eq_iff _ _).1 bad))
          ])
        ]

    executed-Keeps :
        (req : StandardRequest) (dec : RouteDecision) (x : S × Outcome)
        → P x.0 × Answer Q e x.1
        → P (executed svc req dec x).0
    executed-Keeps req dec (s, failed error) (h, a) = h
    executed-Keeps req dec (s, answered resp level) (h, a) =
        stored-Keeps level req (with_provider svc dec resp) _
          (count_answer-Keeps level resp req dec s h)
          (elim a [
            | inl (q, _) ↦ inl (k.relabel resp _ resp.model q)
            | inr (_, exhausted) ↦ inr exhausted
          ])

    run_routed-Keeps :
        (req : StandardRequest) (x : S × Result RouteDecision) → P x.0 → P (run_routed svc req x).0
    run_routed-Keeps req (s, err error) h = h
    run_routed-Keeps req (s, ok dec) h =
        allowed (svc.allow dec.provider_name dec.model s) (k.allow dec.provider_name dec.model s h)
      where
        allowed : (x : S × Bool) → P x.0 → P (run_allowed svc req dec x).0
        allowed (t, false) g = g
        allowed (t, true) g =
            executed-Keeps req dec
              (svc.execute dec.provider_name dec.model (some (build_send_fn svc req)) t)
              (rw (k.wired dec.provider_name dec.model (some (build_send_fn svc req)) t) (
                execute-Answer P Q ctx e (build_send_fn svc req) k.wait (build_send_fn-Keeps req)
                  dec.provider_name dec.model t g))

    run_cached-Keeps : (req : StandardRequest) (s : S) → P s → P (run_cached svc svc.cache req s).0
    run_cached-Keeps req s h = go svc.cache refl
      where
        missed : (x : S × Option StandardResponse) → P x.0 → P (run_missed svc req x).0
        missed (t, some resp) g = k.count _ _ (k.count _ _ (k.count _ t g))
        missed (t, none) g = run_routed-Keeps req (svc.route req t) (k.route req t g)

        go : (cache : Option (CacheOps S)) → svc.cache ≡ cache → P (run_cached svc cache req s).0
        go none same = run_routed-Keeps req (svc.route req s) (k.route req s h)
        go (some cache) same = missed (cache.lookup req s) (k.lookup cache same req s h)

    -- Where the engine of internal/fallback is wired in: what every collaborator keeps true, a chat completion keeps true, even if the cache keeps it only
    -- when it is handed a response of a provider: the default response is never put into the cache.
    pub handle_chat_completion-Keeps :
        (req : StandardRequest) (s : S) → P s → P (handle_chat_completion svc req s).0
    unfolding handle_chat_completion
    handle_chat_completion-Keeps req s h = elim (Bool-cases req.stream) [
      | inl streaming ↦ simp streaming h
      | inr plain ↦ simp plain (run_cached-Keeps req s h)
    ]
