-- ===== src/Wiring/Starting.antt =====
-- cmd/gateway/main.go: the start of the program, up to the parts that depend on the configuration, on the
-- embedding engine and on Redis. Logging is left out, and so are WatchAndReload, whose error and
-- configurations `main` does not use, and the HTTP server.
use momu_llmgateway.Base.{
  ℕ, String, Bool, true, false, Option, none, some, List, [], ◌==◌, ◌≡◌, if◌then◌else◌,
}
use momu_llmgateway.Base.Float.{Float64, FloatOps}
use momu_llmgateway.Cache.{SemanticCache}
use momu_llmgateway.Cache.Redis.{Redis}
use momu_llmgateway.Config.{Config, ProviderConfig}
use momu_llmgateway.Config.Loading.{Viper, load}
use momu_llmgateway.Decision.Semantic.{Embedder}
use momu_llmgateway.Embedding.Engine.{Runtime, EmbeddingEngine, init, fresh, embed_with}
use momu_llmgateway.Model.{GoError, StandardRequest, Result, ok, err}
use momu_llmgateway.Wiring.{collect_all_models}
use momu_llmgateway.Wiring.Caching.{
  Semantic, routes, no_router, panics, semantic_router_of, redis_client, semantic_cache_of,
}

-- The semantic cache: none, one with an engine, or one whose embedder is an interface that holds a nil
-- engine, as the cache is built whether the engine is there or not. The nil engine, whose calls panic, is
-- the embedder none in the fields of that last cache.
pub data CachePart (R : Type 0) : Type 0 where
  no_cache : CachePart R
  cached : SemanticCache R → CachePart R
  nil_embedder : SemanticCache R → CachePart R

pub record Parts (T D R : Type 0) : Type 0 where
  pub config : Config
  pub engine : Option (EmbeddingEngine T D)
  pub rate_limiter : Option (Redis R)
  pub semantic : Option (StandardRequest → List String)
  pub cache : CachePart R

-- How a start ends: a panic on the logger's error, `log.Fatal` on that of the configuration, a panic in
-- `NewSemanticRouter`, or the parts.
pub data Started (T D R : Type 0) : Type 0 where
  no_logger : GoError → Started T D R
  no_config : GoError → Started T D R
  crashed_router : Started T D R
  running : Parts T D R → Started T D R

-- `GATEWAY_CONFIG`, or the path that is used without it.
abbrev pub config_path : String → String
config_path path = if path == "" then "configs/gateway.yaml" else path

-- There is something exactly if there was no error.
abbrev pub IsThere {ℓ} : {A : Type ℓ} → Option GoError → Option A → Type ℓ
IsThere {A = A} none x = (a : A) × (x ≡ some a)
IsThere (some e) x = x ≡ none

-- There is nothing if there was an error.
abbrev pub IsNotWith {ℓ} : {A : Type ℓ} → Option GoError → Option A → Type ℓ
IsNotWith none x = x ≡ x
IsNotWith (some e) x = x ≡ none

-- The store of a cache and the models that it is told, for the error of the store.
abbrev pub IsStoredFor :
    {R : Type 0} → List (String × ProviderConfig) → Option GoError → SemanticCache R → Type 0
IsStoredFor pcs none c = IsThere none c.store × (c.recoverable_models ≡ collect_all_models pcs)
IsStoredFor pcs (some e) c = (c.store ≡ none) × (c.recoverable_models ≡ [])

-- The cache, for the error of the engine, whether the configuration has it enabled, and the error of its
-- store.
abbrev pub IsCacheFor :
    {R : Type 0}
    → List (String × ProviderConfig)
    → Option GoError
    → Bool
    → Option GoError
    → CachePart R
    → Type 0
IsCacheFor pcs e false unstored part = part ≡ no_cache
IsCacheFor {R} pcs (some e) true unstored part =
    (c : SemanticCache R) × ((part ≡ nil_embedder c) × IsStoredFor pcs unstored c)
IsCacheFor {R} pcs none true unstored part =
    (c : SemanticCache R) × ((part ≡ cached c) × IsStoredFor pcs unstored c)

module _ {V F W C T D R : Type 0} (viper : Viper V F) (expand_env : String → String)
    (onnx : Runtime W C T D) (ops : FloatOps) (float_of : ℕ → Float64) (to_bytes : String → List ℕ)
    (of_bytes : List ℕ → String) (now : R → ℕ) (redis : Redis R) where
  abbrev pub embedder_of : Option (EmbeddingEngine T D) → Option Embedder
  embedder_of none = none
  embedder_of (some e) = some (embed_with onnx ops float_of e)

  abbrev pub found_cache : Option Embedder → Option (SemanticCache R) → CachePart R
  found_cache embed none = no_cache
  found_cache none (some c) = nil_embedder c
  found_cache (some embed) (some c) = cached c

  abbrev pub cache_part : Config → Option Embedder → R → CachePart R
  cache_part cfg embed r =
      found_cache embed (semantic_cache_of to_bytes of_bytes now cfg cfg.providers embed redis r)

  abbrev pub with_router : Config → Option (EmbeddingEngine T D) → R → R → Semantic → Started T D R
  with_router cfg engine r r' panics = crashed_router
  with_router cfg engine r r' no_router = running (record {
    config = cfg;
    engine = engine;
    rate_limiter = redis_client redis (redis.ping r);
    semantic = none;
    cache = cache_part cfg (embedder_of engine) r';
  })
  with_router cfg engine r r' (routes route) = running (record {
    config = cfg;
    engine = engine;
    rate_limiter = redis_client redis (redis.ping r);
    semantic = some route;
    cache = cache_part cfg (embedder_of engine) r';
  })

  -- The engine that `Init` leaves, whose error is logged alone.
  abbrev pub engine_for : Config → W → Option (EmbeddingEngine T D)
  engine_for cfg w =
      (init onnx cfg.embedding.onnx_library_path cfg.embedding.model_path (w, fresh)).0.1.engine

  abbrev pub router_for : Config → W → Semantic
  router_for cfg w = semantic_router_of ops float_of cfg (embedder_of (engine_for cfg w))

  abbrev pub loaded_start : W → R → R → Result Config → Started T D R
  loaded_start w r r' (err e) = no_config e
  loaded_start w r r' (ok cfg) = with_router cfg (engine_for cfg w) r r' (router_for cfg w)

  -- The start of `main`, for what the environment holds, the files, and what is outside: Redis as it is
  -- when the client of the rate limiter connects, and when the store of the cache does.
  unfoldable pub start : Option GoError → String → F → W → R → R → Started T D R
  unfolding load init semantic_cache_of
  start (some e) path files w r r' = no_logger e
  start none path files w r r' =
      loaded_start w r r' (load viper expand_env (config_path path) files none).1

  abbrev pub init_error : Config → W → Option GoError
  init_error cfg w =
      (init onnx cfg.embedding.onnx_library_path cfg.embedding.model_path (w, fresh)).1

  -- What runs, for the configuration that was read, the error of the engine, and those of the
  -- client of Redis and of the store.
  pub record IsDegraded (cfg : Config) (broken refused unstored : Option GoError)
      (parts : Parts T D R) : Type 0 where
    config : parts.config ≡ cfg
    engine : IsThere broken parts.engine
    limiter : IsThere refused parts.rate_limiter
    semantic : IsNotWith broken parts.semantic
    cache : IsCacheFor cfg.providers broken cfg.semantic_cache.enabled unstored parts.cache

  abbrev pub IsRunning :
      Config → Option GoError → Option GoError → Option GoError → Started T D R → Type 0
  IsRunning cfg broken refused unstored s =
      (parts : Parts T D R) × ((s ≡ running parts) × IsDegraded cfg broken refused unstored parts)
