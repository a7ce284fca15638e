-- ===== src/Runtime.antt =====
-- internal/contexts/runtime: the gateway's active configuration, and how a newer one is taken in.
pub mod Types
pub mod State
pub mod Reloading
pub mod Watching
mod Tests
