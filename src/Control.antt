-- ===== src/Control.antt =====
-- internal/contexts/control/application: the use cases of the control plane over its repositories.
pub mod Types
pub mod Ports
pub mod Validation
pub mod Memory
pub mod Service
pub mod Entries
pub mod Validity
pub mod Revocation
pub mod Activation
pub mod Status
mod Tests
