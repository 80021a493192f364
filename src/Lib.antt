-- ===== src/Lib.antt =====
-- The repair agent for Isabelle theories: python/src/isabelle_repair, and its client of the REPL
-- service, python/src/isabelle_repl/client.py.
--
-- A run repairs one theory. The orchestrator (run/orchestrator.py) asks the localizer for the first
-- command that fails, gives it to the engine as a task, asks the policy gate about the artifact,
-- enters a review where the gate wants one, applies accepted artifacts to the working snapshot, and
-- writes a record of every step. The localizer and the engine talk to the Isabelle server through the
-- client.
--
-- Which file models which part:
--   Base           helpers: tests, lists, integers, text, dicts, actions that may raise, and the rules
--                  by which actions keep an invariant, end, or return values with a property
--   Model          model/types.py, the data
--   Records        records/store.py, the record factory, the stores and the serialised records
--   Observability  run/observability.py, the loggers
--   Policy         policy/config.py and rules.py; Policy.Loader is config_loader.py on
--                  parsed TOML, and Policy.Loader.Files its reading of the file
--   Hooks          hooks/guard.py and static.py
--   Snapshot       run/working_snapshot.py; Snapshot.Patch is the rendering of the patched text
--   Orchestrator   run/orchestrator.py: State (its fields and the parts behind model/protocols.py),
--                  Recording (`_record_…`), Contexts, Reviews (reviews, artifacts, placeholders,
--                  continuations), Resume (`resume_from_review`), Loop (`run_until_terminal`)
--                  Orchestrator.Phases is the state machine contract, docs/v1_5/contracts/
--                  theory-repair-run-state-machine-contract.md
--   TheoryRun      run/theory_run.py: a run with its stores, its loggers and its patch
--   RepairOnce     python/scripts/run_repair_once.py: a run over the library's own parts
--   Demo           python/examples/proof_repair_demo.py: a repair loop over the client alone
--   Gate           python/scripts/check_repair_acceptance_gate.py
--   Contracts      localization/contracts.py
--   Client         client.py, over a stub for the server's methods
--   Engine         engine/adapters.py, generator.py, candidate_source.py, controller.py, and
--                  repl/minimal.py (Engine.Fallback)
--   Localizer      localization/repl.py: Fields, Anchor (`_ensure_commands_loaded`, `_ensure_anchor`), Scan
--                  (`next_task`)
--   Tests          the theorems at concrete inputs
--
-- A method that changes its object is an action: a function from the object to an outcome (a value, an
-- exception, or the end of the model's fuel) and the object as the method leaves it. The world behind
-- the parts (server, reviewer, policy) is a type parameter W with the parts as functions on it.
--
-- Bounds and fuel: the loop of `run_until_terminal` recurs on `max_steps`, with no round where
-- that is negative. `resume_from_review` calls itself while it handles a review, through the artifact
-- that an accepted response applies and through a request for a placeholder. The model gives these calls fuel; how much is enough is a
-- theorem below.
--
-- Not modelled: the generated gRPC code, the Scala server and the network (behind `Stub`), the file
-- system (a file is the list of its lines, and paths are texts), JSON and TOML syntax, `difflib`, the
-- clock and the random ids (parameters), the command line's parser and the bypass of proxies. A
-- file that cannot be written is not modelled: writing always succeeds. The
-- order in which Python walks a set of response kinds is a parameter. Proof levels, lines, the
-- limit of steps and the target of a run are integers of both signs; counters and the engine's budgets
-- are natural numbers, since the source never makes them negative, and so are timeouts, where a
-- negative argument of the command line is not modelled. The loggers of a run write their lines from
-- the list of its events when the run is over.
pub mod Base
pub mod Client
pub mod Contracts
pub mod Demo
pub mod Engine
pub mod Gate
pub mod Hooks
pub mod Localizer
pub mod Model
pub mod Observability
pub mod Orchestrator
pub mod Policy
pub mod Records
pub mod RepairOnce
pub mod Snapshot
pub mod Tests
pub mod TheoryRun
