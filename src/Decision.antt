-- ===== src/Decision.antt =====
-- internal/decision: the circuit breaker, the balancer and the routing strategies.
pub mod Balancer
pub mod Capability
pub mod CircuitBreaker
pub mod Router
pub mod Semantic
