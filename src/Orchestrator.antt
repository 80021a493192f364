-- ===== src/Orchestrator.antt =====
-- python/src/isabelle_repair/run/orchestrator.py: `TheoryRepairOrchestrator`.
pub mod State
pub mod Recording
pub mod Contexts
pub mod Reviews
pub mod Resume
pub mod Loop
pub mod Frame
pub mod Integration
pub mod Invariants
pub mod Depth
pub mod Terminal
pub mod Phases
