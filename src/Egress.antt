-- ===== src/Egress.antt =====
-- internal/egress: the provider registry and the two provider adapters.
pub mod Anthropic
pub mod Http
pub mod OpenAi
pub mod Registry
pub mod Streams
