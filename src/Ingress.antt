-- ===== src/Ingress.antt =====
-- internal/ingress: the chat service, the circuit breaker manager, the handlers and the middleware.
pub mod Breakers
pub mod Handler
pub mod Health
pub mod Middleware
pub mod Service
