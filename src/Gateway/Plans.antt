-- ===== src/Gateway/Plans.antt =====
-- The planning use cases of internal/contexts/gateway/application.
pub mod Zero
pub mod ExchangePreparation
pub mod InputRequest
pub mod OutputResponse
pub mod UpstreamExchange
