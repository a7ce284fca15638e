-- ===== src/Policy.antt =====
-- internal/contexts/policy/domain: policy bundles, compiled snapshots and their evaluation.
pub mod Types
pub mod Canonical
pub mod Compile
pub mod Compilation
pub mod Joining
pub mod Evaluate
pub mod Candidates
pub mod Caching
pub mod Decisions
pub mod Blocking
pub mod Tests
