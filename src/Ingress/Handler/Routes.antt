-- ===== src/Ingress/Handler/Routes.antt =====
-- internal/ingress/handler.go: `RegisterRoutes`, and the handler of the path /health. gin finds the route
-- of a request; the metrics are those of Prometheus.
use momu_llmgateway.Base.{String, Option, none, some, List, [], ◌∷◌}
use momu_llmgateway.Ingress.Health.{HealthResult}

pub data Route : Type 0 where
  health : Route
  metrics : Route
  chat_completions : Route

-- `RegisterRoutes`: the method, the path and the handler of each route.
abbrev pub register_routes : List (String × String × Route)
register_routes =
    ("GET", "/health", health)
    ∷ ("GET", "/metrics", metrics)
    ∷ ("POST", "/v1/chat/completions", chat_completions)
    ∷ []

-- The body of /health, with status 200 whatever it says: what the checker's `Check` gives, or a status
-- alone where there is no checker.
pub data HealthBody : Type 0 where
  checked : HealthResult → HealthBody
  status_alone : String → HealthBody

abbrev pub health_body : Option HealthResult → HealthBody
health_body (some result) = checked result
health_body none = status_alone "ok"
