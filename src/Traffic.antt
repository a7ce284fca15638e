-- ===== src/Traffic.antt =====
-- internal/contexts/traffic: the events of the gateway's traffic, and the way they take from the
-- gateway to the event store.
pub mod Types
pub mod Pipeline
pub mod Durable
mod Tests
