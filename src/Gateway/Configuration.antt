-- ===== src/Gateway/Configuration.antt =====
-- internal/contexts/gateway/adapters/http/openai/gateway_config.go: the configuration of the gateway,
-- made of the runtime's.
pub mod Limiting
pub mod Acceptance
pub mod Routing
pub mod Providers
pub mod Building
mod Tests
