-- ===== src/Wiring/Caching.antt =====
-- cmd/gateway/main.go: the semantic cache and the semantic router, for an embedding engine that is
-- initialised, and the clients of Redis.
use momu_llmgateway.Base.{ℕ, String, Option, none, some, List, ◌≡◌, if◌then◌else◌}
use momu_llmgateway.Base.Float.{FloatOps, Float64}
use momu_llmgateway.Cache.{CacheStore, SemanticCache, SemanticCacheConfig, Codec, new, set_models}
use momu_llmgateway.Cache.Lookup.{LookupResult, lookup_cached}
use momu_llmgateway.Cache.Redis.{Redis, new_redis_store, save, load_all}
use momu_llmgateway.Cache.Store.{StoreTimes, store_response}
use momu_llmgateway.Config.{Config, ProviderConfig}
use momu_llmgateway.Decision.Semantic.{Embedder, route_semantic}
use momu_llmgateway.Decision.Semantic.Prototypes.{
  Built, built, refused, crashed, new_semantic_router,
}
use momu_llmgateway.Ingress.Service.{CacheOps}
use momu_llmgateway.Model.{GoError, StandardRequest, StandardResponse, Result, ok, err}
use momu_llmgateway.Wiring.{collect_all_models}

-- `redisClient`, which is nil where Redis does not answer.
abbrev pub redis_client : {R : Type 0} → Redis R → Option GoError → Option (Redis R)
redis_client redis none = some redis
redis_client redis (some e) = none

-- The router of `NewSemanticRouter`, if there is one; a panic there ends the program.
pub data Semantic : Type 0 where
  routes : (StandardRequest → List String) → Semantic
  no_router : Semantic
  panics : Semantic

module _ (ops : FloatOps) (float_of : ℕ → Float64) where
  abbrev pub semantic_of : Config → Embedder → Built → Semantic
  semantic_of cfg embed (built categories) = routes (λ req.
      (route_semantic ops
        (record {
          categories = categories;
          threshold = cfg.semantic_routing.similarity_threshold;
          max_prompt_length = cfg.semantic_routing.max_prompt_length;
          engine = some embed;
        })
        req).models)
  semantic_of cfg embed (refused e) = no_router
  semantic_of cfg embed crashed = panics

  abbrev pub semantic_router_of : Config → Option Embedder → Semantic
  semantic_router_of cfg none = no_router
  semantic_router_of cfg (some embed) =
      semantic_of cfg embed (new_semantic_router ops float_of cfg.semantic_routing (some embed))

abbrev pub cache_config : Config → SemanticCacheConfig
cache_config cfg = record {
  enabled = cfg.semantic_cache.enabled;
  similarity_threshold = cfg.semantic_cache.similarity_threshold;
  max_entries = cfg.semantic_cache.max_entries;
  ttl = cfg.semantic_cache.ttl;
  max_prompt_length = cfg.semantic_cache.max_prompt_length;
}

module _ {R : Type 0} (to_bytes : String → List ℕ) (of_bytes : List ℕ → String) (now : R → ℕ) where
  -- The store in Redis as a `CacheStore`; the clock is read off its state.
  abbrev pub redis_store : Redis R → CacheStore R
  redis_store redis = record {
    save = λ model key vector response ttl r.
        (save to_bytes of_bytes redis (now r) model key vector response ttl r).0;
    load_all = λ model r. load_all to_bytes of_bytes redis (now r) model r;
  }

  -- `cacheStore`, nil where `NewRedisStore` failed.
  abbrev pub cache_store : Result (Redis R) → Option (CacheStore R)
  cache_store (ok redis) = some (redis_store redis)
  cache_store (err e) = none

  -- A cache with a store is told the models.
  abbrev pub told_models : List (String × ProviderConfig) → SemanticCache R → SemanticCache R
  told_models pcs c = elim c.store [ none ↦ c | some store ↦ set_models (collect_all_models pcs) c ]

  -- `semanticCache`, for the engine that is its embedder.
  unfoldable pub semantic_cache_of :
      Config
      → List (String × ProviderConfig)
      → Option Embedder
      → Redis R
      → R
      → Option (SemanticCache R)
  unfolding new_redis_store collect_all_models
  semantic_cache_of cfg pcs embed redis r =
      if cfg.semantic_cache.enabled
      then some
          (told_models pcs (new (cache_config cfg) embed (cache_store (new_redis_store redis r))))
      else none

-- A cache that is a part of the state, with what its store keeps: how the two are read and written.
pub record CacheLens (G R : Type 0) : Type 0 where
  pub get : G → SemanticCache R × R
  pub put : SemanticCache R × R → G → G
  pub get-put : (x : SemanticCache R × R) (g : G) → get (put x g) ≡ x
  -- The readings of the clock in a `Lookup` and in a `Store`.
  pub now : G → ℕ
  pub times : G → StoreTimes

module _ {G R : Type 0} (lens : CacheLens G R) (ops : FloatOps) (codec : Codec) where
  abbrev pub looked : G → LookupResult R → G × Option StandardResponse
  looked g r = (lens.put (r.cache, (lens.get g).1) g, r.response)

  abbrev pub kept : G → SemanticCache R × R × Option GoError → G × Option GoError
  kept g (c, r, e) = (lens.put (c, r) g, e)

  -- The cache as the chat service calls it.
  abbrev pub cache_ops : CacheOps G
  cache_ops = record {
    lookup = λ req g. looked g (lookup_cached ops codec req (lens.now g) (lens.get g).0);
    store = λ req resp g. kept g (store_response codec req resp (lens.times g) (lens.get g));
  }
