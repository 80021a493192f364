-- ===== src/Orchestrator/Invariants.antt =====
-- The invariants of a run's records and patches.
pub mod Numbering
pub mod Applied
pub mod Accepted
pub mod Entries
pub mod Ordered
pub mod Stamped
