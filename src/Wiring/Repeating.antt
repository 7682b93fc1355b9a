-- ===== src/Wiring/Repeating.antt =====
-- A chat completion that repeats one that was answered, through the chat service of
-- internal/ingress/service.go and the cache of internal/cache/semantic.go.
use momu_llmgateway.Base.{
  ◌<◌, String, Bool, true, false, ◌==◌, eq_iff, some, List, ◌≡◌, ◌≢◌, refl, sym, ap, subst, ◌∙◌,
  arith,
}
use momu_llmgateway.Base.Float.{Float64, FloatOps, float_ge}
use momu_llmgateway.Cache.{
  CacheEntry, SemanticCache, Codec, entries_of, latest_user_content, is_expired,
}
use momu_llmgateway.Cache.Lookup.{lookup_cached}
use momu_llmgateway.Cache.Retention.{Holds, AccessedBy}
use momu_llmgateway.Cache.Reuse.{IsStorable, IsReused, IsReused-IsHit, store_response-IsReused}
use momu_llmgateway.Cache.Store.{new_entry, store_response}
use momu_llmgateway.Decision.Router.{RouteDecision}
use momu_llmgateway.Embedding.{cosine_similarity}
use momu_llmgateway.Fallback.{answered}
use momu_llmgateway.Ingress.Service.{
  Services, with_provider, stored, count_answer, executed, count_hit, run_cached, run_missed,
  handle_chat_completion,
}
use momu_llmgateway.Model.{StandardRequest, StandardResponse, ok}
use momu_llmgateway.Wiring.Caching.{CacheLens, cache_ops, looked}

module _ {G R : Type 0} (lens : CacheLens G R) (ops : FloatOps) (codec : Codec) (svc : Services G)
    (wired : svc.cache ≡ some (cache_ops lens ops codec)) where
  -- A hit: nothing is called but the metrics.
  hit_lem :
      (req : StandardRequest) (g : G) (resp : StandardResponse)
      → req.stream ≡ false
      → (lookup_cached ops codec req (lens.now g) (lens.get g).0).response ≡ some resp
      → handle_chat_completion svc req g ≡ (
        count_hit svc req
            (looked lens ops codec g (lookup_cached ops codec req (lens.now g) (lens.get g).0)).0,
        ok resp,
      )
  unfolding handle_chat_completion
  hit_lem req g resp plain hit = simp plain (
      ap (λ cache. run_cached svc cache req g) wired
      ∙ ap
          (λ o. run_missed svc req (
            (looked lens ops codec g (lookup_cached ops codec req (lens.now g) (lens.get g).0)).0,
            o,
          ))
          hit)

  stored-cache :
      (level : String) (req : StandardRequest) (resp : StandardResponse) (g : G)
      → level ≢ "fallback_exhausted"
      → (lens.get (stored svc svc.cache level req resp g)).0
        ≡ (store_response codec req resp (lens.times g) (lens.get g)).0
  stored-cache level req resp g h =
      ap (λ cache. (lens.get (stored svc cache level req resp g)).0) wired
      ∙ rw not_exhausted (ap {A = SemanticCache R × R} (λ x. x.0) (lens.get-put _ g))
    where
      not_exhausted : (level == "fallback_exhausted") ≡ false
      not_exhausted = ground (arith, eq_iff level "fallback_exhausted", h)

  module _ (req req' : StandardRequest) (dec : RouteDecision) (resp : StandardResponse)
      (level text json : String) (vec : List Float64) (g : G) where
    -- The state when the answer is stored, and when the first completion has ended.
    abbrev pub counted : G
    counted = count_answer svc level resp req dec g

    abbrev pub ended : G
    ended = (executed svc req dec (g, answered resp level)).0

    abbrev pub new : CacheEntry
    new = new_entry codec req text vec json (lens.times counted)

    -- A chat completion that repeats an answered one is answered from the cache. Once the engine has
    -- answered a request, not with its default response, and its response is stored, a completion for
    -- the same prompt and model ends with a response that is marked as a hit, and calls nothing but the
    -- cache and the metrics. So it is under the conditions of `lookup_cached-store_response`, where
    -- every entry of the model can be decoded.
    pub handle_chat_completion-repeated :
        level ≢ "fallback_exhausted"
        → IsStorable codec (lens.get counted).0 req (with_provider svc dec resp) text vec json
        → req'.stream ≡ false
        → req'.model ≡ req.model
        → latest_user_content req'.messages ≡ text
        → 0 < (lens.get counted).0.max_entries
        → AccessedBy (lens.times counted).accessed (entries_of req.model (lens.get counted).0)
        → is_expired (lens.get counted).0 (lens.times counted).compacted new ≡ false
        → is_expired (lens.get counted).0 (lens.now ended) new ≡ false
        → float_ge (cosine_similarity ops vec vec) (lens.get counted).0.threshold ≡ true
        → ((e : CacheEntry)
            → Holds e (entries_of req'.model (lens.get ended).0)
            → (resp' : StandardResponse) × (codec.unmarshal e.response ≡ ok resp'))
        → (resp' : StandardResponse) × (resp'.cache_hit ≡ true)
          × (handle_chat_completion svc req' ended ≡ (
            count_hit svc req'
                (looked lens ops codec ended
                  (lookup_cached ops codec req' (lens.now ended) (lens.get ended).0)).0,
            ok resp',
          ))
    handle_chat_completion-repeated answers storable plain same prompt room accessed compacts fresh
          similar readable =
        let kept = stored-cache level req (with_provider svc dec resp) counted answers in
        let reused =
          store_response-IsReused ops codec (lens.get counted).0 req req'
            (with_provider svc dec resp) text vec json (lens.times counted) (lens.get counted).1
            (lens.now ended) storable same prompt room accessed compacts fresh similar in
        let hit =
          IsReused-IsHit ops codec (lens.get ended).0 req'.model (lens.now ended) vec
            (lookup_cached ops codec req' (lens.now ended) (lens.get ended).0)
            (subst
              (λ c.
                IsReused ops codec c req'.model (lens.now ended) vec
                  (lookup_cached ops codec req' (lens.now ended) c))
              (sym kept) reused)
            readable in
        (
          record hit.decoded_response { cache_hit = Bool.true },
          refl,
          hit_lem req' ended (record hit.decoded_response { cache_hit = Bool.true }) plain hit.hits,
        )
