-- ===== src/Wiring.antt =====
-- cmd/gateway/main.go: how `main` puts the parts together. `cfg.Providers` is a map: its entries are
-- a list here, in the order in which a loop meets them, which Go leaves open. The clients of net/http,
-- one for each timeout, and encoding/json are parameters.
pub mod Caching
pub mod Models
pub mod Providers
pub mod Repeating
pub mod Routing
pub mod Service
pub mod Serving
pub mod Starting
pub mod Streams
pub mod Weights
use momu_llmgateway.Base.{
  String, Bool, true, false, ◌||◌, Option, none, some, List, [], ◌∷◌, ◌++◌, map, ◌==◌,
  if◌then◌else◌,
}
use momu_llmgateway.Base.Dict.{lookup, get, is_among}
use momu_llmgateway.Base.Float.{Float64}
use momu_llmgateway.Base.Int.{ℤ, pos}
use momu_llmgateway.Config
use momu_llmgateway.Config.{Config, ProviderConfig, FallbackConfig, CircuitBreakerConfig}
use momu_llmgateway.Decision.Balancer.{
  Num, ProviderCandidate, Balancer, BalancerConfig, new_balancer,
}
use momu_llmgateway.Decision.Balancer
use momu_llmgateway.Decision.Capability.{CapabilityRouter, CostRouter}
use momu_llmgateway.Decision.Router.{Router}
use momu_llmgateway.Egress.Anthropic.{AnthropicJson, Anthropic}
use momu_llmgateway.Egress.Anthropic.Client
use momu_llmgateway.Egress.Http.{HttpClient}
use momu_llmgateway.Egress.OpenAi.{OpenAiJson, OpenAiCompatible}
use momu_llmgateway.Egress.OpenAi
use momu_llmgateway.Egress.Registry.{
  Registry, new_registry, register, providers_for_model, provider_by_name,
}
use momu_llmgateway.Fallback.{Engine, new_engine}
use momu_llmgateway.Ingress.Breakers.{Manager, new_manager}
use momu_llmgateway.Model.{StandardRequest, Provider}

abbrev pub add_model : String → List String × List String → List String × List String
add_model m (seen, models) =
    if is_among m seen then (seen, models) else (m ∷ seen, models ++ m ∷ [])

-- The inner loop of `collectAllModels`: the keys of `seen`, and the models in their order.
unfoldable pub collect_models : List String → List String × List String → List String × List String
collect_models [] x = x
collect_models (m ∷ ms) x = collect_models ms (add_model m x)

unfoldable pub collect_from :
    List (String × ProviderConfig) → List String × List String → List String × List String
unfolding collect_models
collect_from [] x = x
collect_from ((name, pc) ∷ pcs) x = collect_from pcs (collect_models pc.models x)

-- `collectAllModels`.
unfoldable pub collect_all_models : List (String × ProviderConfig) → List String
unfolding collect_from
collect_all_models pcs = (collect_from pcs ([], [])).1

module _ {W : Type 0} (anthropic : AnthropicJson) (open_ai : OpenAiJson)
    (http : ℤ → HttpClient W) where
  -- The switch on the type of a provider.
  unfoldable pub new_provider : String → ProviderConfig → Provider W
  new_provider name pc =
      if pc.kind == "anthropic"
      then Client.provider anthropic (http pc.timeout)
          (record { name = name; base_url = pc.base_url; api_key = pc.api_key; models = pc.models })
      else OpenAi.provider open_ai (http pc.timeout)
          (record { name = name; base_url = pc.base_url; api_key = pc.api_key; models = pc.models })

  -- The loop that registers the providers.
  unfoldable pub register_providers : List (String × ProviderConfig) → Registry W → Registry W
  unfolding new_provider register
  register_providers [] r = r
  register_providers ((name, pc) ∷ pcs) r =
      register_providers pcs (register (new_provider name pc) r)

  unfoldable pub registry_of : List (String × ProviderConfig) → Registry W
  unfolding register_providers new_registry
  registry_of pcs = register_providers pcs (new_registry W)

  module _ {N : Type 0} (num : Num N) where
    abbrev pub base_weight : Option ProviderConfig → N
    base_weight none = num.of_int (pos 100)
    base_weight (some pc) = num.of_int pc.weight

    abbrev pub candidate_of :
        List (String × ProviderConfig) → String → Provider W → ProviderCandidate N
    candidate_of pcs model p = record {
      provider_name = p.name;
      model = model;
      base_weight = base_weight (lookup p.name pcs);
      active_connections = pos 0;
      normalized_p99_latency = num.zero;
      health_score = num.one;
      warmup_factor = num.one;
    }

    -- `buildCandidates`.
    unfoldable pub build_candidates :
        List (String × ProviderConfig) → List (Provider W) → String → List (ProviderCandidate N)
    unfolding lookup
    build_candidates pcs [] model = []
    build_candidates pcs (p ∷ ps) model = candidate_of pcs model p ∷ build_candidates pcs ps model

    -- The router; the semantic one is what `NewSemanticRouter` gave, if anything.
    unfoldable pub router_of :
        List (String × ProviderConfig)
        → Config
        → Option (StandardRequest → List String)
        → Router N W
    unfolding registry_of providers_for_model build_candidates lookup
    router_of pcs cfg semantic = record {
      strategies = cfg.routing.strategies;
      default_cascade = get (lookup "default" cfg.routing.cascade);
      has_balancer = true;
      semantic_router = semantic;
      capability_router = some (record { rules = cfg.routing.rules });
      cost_router = some (record { chains = cfg.routing.cascade });
      model_providers = λ model. providers_for_model model (registry_of pcs);
      build_candidates = some (build_candidates pcs);
    }

  -- `providerLookup`.
  unfoldable pub provider_lookup : List (String × ProviderConfig) → String → Option (Provider W)
  unfolding registry_of provider_by_name
  provider_lookup pcs name = provider_by_name name (registry_of pcs)

-- The loop that registers the names with the balancer.
unfoldable pub register_names :
    {N : Type 0} → Num N → List (String × ProviderConfig) → Balancer N → Balancer N
unfolding Balancer.register
register_names num [] b = b
register_names num ((name, pc) ∷ pcs) b = register_names num pcs (Balancer.register num name b).0

-- The balancer; how a float64 and the seconds of a duration are read in its arithmetic is given.
unfoldable pub balancer_of :
    {N : Type 0}
    → Num N
    → (Float64 → N)
    → (ℤ → N)
    → List (String × ProviderConfig)
    → Config
    → Balancer N
unfolding register_names new_balancer
balancer_of num of_float seconds pcs cfg = register_names num pcs (
    new_balancer (record {
      concurrency_penalty_coefficient = of_float cfg.balancer.concurrency_penalty_coefficient;
      latency_penalty_coefficient = of_float cfg.balancer.latency_penalty_coefficient;
      warmup_enabled = cfg.balancer.warmup_enabled;
      warmup_duration = seconds cfg.balancer.warmup_duration;
      health_window_size = seconds cfg.balancer.health_window_size;
      health_min_requests = cfg.balancer.health_min_requests;
    }))

-- The degradation engine, and the circuit breaker manager.
unfoldable pub engine_of : Config → Engine
unfolding new_engine
engine_of cfg =
    new_engine (some cfg.fallback.chains) cfg.fallback.retry_max cfg.fallback.retry_backoff ""

unfoldable pub manager_of : Config → Manager
unfolding new_manager
manager_of cfg = new_manager cfg.circuit_breaker.failure_threshold cfg.circuit_breaker.cooldown
