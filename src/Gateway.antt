-- ===== src/Gateway.antt =====
-- internal/contexts/gateway/application: the transport-neutral use cases of the gateway.
pub mod Types
pub mod Lifecycle
pub mod Plans
pub mod Enforcement
pub mod Redaction
pub mod Streaming
pub mod Limits
pub mod ModelSignal
pub mod Evaluation
pub mod Exchange
pub mod Admission
pub mod Configuration
pub mod Authentication
pub mod Tests
pub mod AdmissionTests
