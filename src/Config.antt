-- ===== src/Config.antt =====
-- internal/config/config.go: the configuration records that the other parts read. A duration is in
-- nanoseconds. Config/Loading has the functions.
pub mod Loading
use momu_llmgateway.Base.{String, Bool, List}
use momu_llmgateway.Base.Int.{ℤ}
use momu_llmgateway.Base.Float.{Float64}

pub record ServerConfig : Type 0 where
  pub port : ℤ
  pub read_timeout : ℤ
  pub write_timeout : ℤ

pub record RedisConfig : Type 0 where
  pub addr : String
  pub password : String
  pub db : ℤ

pub record ApiKeyConfig : Type 0 where
  pub key : String
  pub name : String
  pub rate_limit : ℤ
  pub allowed_models : List String

pub record AuthConfig : Type 0 where
  pub api_keys : List ApiKeyConfig

pub record ProviderConfig : Type 0 where
  pub kind : String
  pub base_url : String
  pub api_key : String
  pub models : List String
  pub weight : ℤ
  pub timeout : ℤ

pub record RoutingRuleConfig : Type 0 where
  pub task_type : String
  pub condition : String
  pub target_models : List String

pub record RoutingConfig : Type 0 where
  pub strategies : List String
  pub rules : List RoutingRuleConfig
  pub cascade : List (String × List String)

pub record SemanticCategoryConfig : Type 0 where
  pub name : String
  pub target_models : List String
  pub exemplars : List String

pub record SemanticRoutingConfig : Type 0 where
  pub similarity_threshold : Float64
  pub max_prompt_length : ℤ
  pub categories : List SemanticCategoryConfig

pub record SemanticCacheConfig : Type 0 where
  pub enabled : Bool
  pub similarity_threshold : Float64
  pub ttl : ℤ
  pub max_entries : ℤ
  pub max_prompt_length : ℤ

pub record FallbackConfig : Type 0 where
  pub retry_max : ℤ
  pub retry_backoff : ℤ
  pub chains : List (String × List String)

pub record CircuitBreakerConfig : Type 0 where
  pub failure_threshold : ℤ
  pub window : ℤ
  pub cooldown : ℤ

pub record BalancerConfig : Type 0 where
  pub concurrency_penalty_coefficient : Float64
  pub latency_penalty_coefficient : Float64
  pub warmup_enabled : Bool
  pub warmup_duration : ℤ
  pub health_window_size : ℤ
  pub health_min_requests : ℤ

pub record EmbeddingConfig : Type 0 where
  pub onnx_library_path : String
  pub model_path : String

pub record Config : Type 0 where
  pub server : ServerConfig
  pub redis : RedisConfig
  pub auth : AuthConfig
  pub providers : List (String × ProviderConfig)
  pub routing : RoutingConfig
  pub semantic_routing : SemanticRoutingConfig
  pub semantic_cache : SemanticCacheConfig
  pub fallback : FallbackConfig
  pub circuit_breaker : CircuitBreakerConfig
  pub balancer : BalancerConfig
  pub embedding : EmbeddingConfig
