-- ===== src/Tests.antt =====
-- The theorems at concrete inputs: a run with one task, an engine, a localizer and their parts.
pub mod Runs
pub mod Theories
pub mod Parsing
pub mod Engines
mod Scripts
