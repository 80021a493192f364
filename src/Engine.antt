-- ===== src/Engine.antt =====
-- python/src/isabelle_repair/engine and repl/minimal.py: the engine that looks for a repair of one
-- task. It asks the REPL client for sledgehammer's tactic and for the execution of its candidates.
pub mod Adapters
pub mod Controller
pub mod Fallback
pub mod Contracts
pub mod Attempts
pub mod Budget
pub mod Continuations
