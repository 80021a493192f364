-- ===== src/TheoryRun.antt =====
-- python/src/isabelle_repair/run/theory_run.py: `TheoryRepairRun`, which sets up the records, the
-- loggers and the orchestrator of a run and exports the patch at its end.
pub mod Links
pub mod Rendering
pub mod Patches
pub mod Laws
pub mod Order
pub mod Provenance
pub mod Stamps
pub mod Stores
use mathlib.Core.List.{foldl}
use isabelle_repl.Base.{
  ℤ, ℕ, String, ◌<>◌, or_text, truthy, Bool, true, false, not, ◌&&◌, Option, none, some, List, [],
  ◌∷◌, or_default, Outcome, return, raise, out_of_fuel, if◌then◌else◌,
}
use isabelle_repl.Model.{
  RunState, completed, finished, RunMode, RunRecord, run_metadata, patch_provenance,
}
use isabelle_repl.Records.{
  RunRecordFactory, new_factory, create, RecordStore, memory, jsonl, SerializedRecord, list_records,
  append_all,
}
use isabelle_repl.Observability.{JsonEventLogger, LogRecord, emit_events}
use isabelle_repl.Snapshot.{
  UnifiedDiff, Snapshot, Replacement, new_snapshot, JsonPatch, export_json_patch,
  export_unified_diff, export_patch_provenance_links,
}
use isabelle_repl.Orchestrator.State.{Parts, Orchestrator, new_orchestrator}
use isabelle_repl.Orchestrator.Recording.{append_record}
use isabelle_repl.Orchestrator.Loop.{run_until_terminal}

-- What the method takes from the libraries: `uuid4().hex` of the run, `json.dumps`, the clock,
-- `difflib.unified_diff`, the length of a text in UTF-8, and pathlib's `parent` and `/`.
pub record Libraries : Type 0 where
  pub run_uuid_hex : String
  pub dumps_record : SerializedRecord → String
  pub dumps_event : LogRecord → String
  pub dumps_patch : JsonPatch → String
  pub now : JsonEventLogger → String
  pub unified_diff : UnifiedDiff
  pub utf8_length : String → ℕ
  pub parent : String → String
  pub join_path : String → String → String

-- The arguments of `execute`. A caller's store is one store of the model.
pub record Options : Type 0 where
  pub max_steps : ℤ
  pub run_id : Option String
  pub record_store : Option RecordStore
  pub record_factory : Option RunRecordFactory
  pub records_path : Option String
  pub log_file : Option String
  pub logger : Option (List JsonEventLogger)
  pub run_mode : RunMode
  pub target_max_tasks : Option ℤ

-- The files that a run reads and writes: the lines that are in a file when it is opened to append.
abbrev pub OldLines : Type 0
OldLines = String → List String

-- What a call of `execute` leaves: how it ended, the orchestrator, the store that it wrote to, the
-- loggers and the files of the patch with their contents.
pub record Execution (W : Type 0) : Type 0 where
  pub outcome : Outcome RunState
  pub run : Orchestrator W
  pub stores : List RecordStore
  pub loggers : List JsonEventLogger
  pub files : List (String × String)

-- `run_id or f"run-{…}"`
abbrev pub resolved_run_id : Libraries → Option String → String
resolved_run_id lib none = "run-" <> lib.run_uuid_hex
resolved_run_id lib (some run_id) = or_text run_id ("run-" <> lib.run_uuid_hex)

-- `records_path or Path(".artifacts") / "repair_runs" / f"{resolved_run_id}.jsonl"`
abbrev pub resolved_records_path : Libraries → Option String → String → String
resolved_records_path lib none run_id =
    lib.join_path (lib.join_path ".artifacts" "repair_runs") (run_id <> ".jsonl")
resolved_records_path lib (some path) run_id = path

-- `_default_store`
abbrev pub default_store : OldLines → String → List RecordStore
default_store old records_path = memory [] ∷ jsonl (old records_path) ∷ []

abbrev pub resolved_store : OldLines → String → Option RecordStore → List RecordStore
resolved_store old records_path none = default_store old records_path
resolved_store old records_path (some store) = store ∷ []

-- `_default_logger`: the standard output, and the log file if there is one.
abbrev pub default_logger : OldLines → String → Option String → List JsonEventLogger
default_logger old run_id none = record { run_id = run_id; stream = [] } ∷ []
default_logger old run_id (some log_file) =
    record { run_id = run_id; stream = [] } ∷ record { run_id = run_id; stream = old log_file } ∷ []

-- The in-memory store that `execute` returns: it is the first of the default stores, and a new one
-- that nothing is appended to where the caller gives a store.
abbrev pub returned_store : Option RecordStore → List RecordStore → RecordStore
returned_store none (store ∷ stores) = store
returned_store _ stores = memory []

abbrev pub is_exported : RunState → Bool
is_exported completed = true
is_exported finished = true
is_exported _ = false

abbrev pub is_empty : List Replacement → Bool
is_empty [] = true
is_empty (e ∷ es) = false

module _ (lib : Libraries) where
  abbrev pub patch_path : String → String → String
  patch_path run_id records_path = lib.join_path (lib.parent records_path) (run_id <> ".patch")

  abbrev pub patch_json_path : String → String → String
  patch_json_path run_id records_path =
      lib.join_path (lib.parent records_path) (run_id <> ".patch.json")

  abbrev pub patch_files : String → String → Snapshot → List (String × String)
  patch_files run_id records_path s =
      (patch_path run_id records_path, export_unified_diff lib.unified_diff s)
      ∷ (patch_json_path run_id records_path, lib.dumps_patch (export_json_patch s))
      ∷ []

module _ {W : Type 0} (lib : Libraries) (parts : Parts W) where
  -- `_export_patch_artifacts`: the files that it writes, and the run with the record of them.
  unfoldable pub export_patch_artifacts :
      String → String → RunState → Orchestrator W → List (String × String) × Orchestrator W
  export_patch_artifacts run_id records_path final_state s =
      if is_exported final_state && not (is_empty s.snapshot.applied_replacements)
      then (
        patch_files lib run_id records_path s.snapshot,
        (append_record parts none
            (patch_provenance (patch_path lib run_id records_path)
              (patch_json_path lib run_id records_path) (export_patch_provenance_links s.snapshot))
            s).1,
      )
      else ([], s)

  -- What follows `run_until_terminal`.
  unfoldable pub export_after :
      String → String → Outcome RunState → Orchestrator W → List (String × String) × Orchestrator W
  unfolding export_patch_artifacts
  export_after run_id records_path (return final_state) s =
      export_patch_artifacts run_id records_path final_state s
  export_after run_id records_path _ s = ([], s)

module _ {W : Type 0} (lib : Libraries) (old : OldLines) (behind : Parts W)
    (theory_path theory_text : String) (options : Options) where
  abbrev pub run_id_of : String
  run_id_of = resolved_run_id lib options.run_id

  abbrev pub records_path_of : String
  records_path_of = resolved_records_path lib options.records_path run_id_of

  -- The orchestrator's fields: the parts behind the protocols, and what `execute` sets. Reviews are
  -- resolved by the hook, which is the field's default.
  abbrev pub run_parts : Parts W
  run_parts = record behind {
    theory_run_id = run_id_of;
    has_logger = true;
    auto_resolve_review = true;
    run_mode = options.run_mode;
    target_max_tasks = options.target_max_tasks;
    dumps_record = lib.dumps_record;
  }

  -- The orchestrator when the run starts, with the record of the run's metadata.
  abbrev pub start_of : W → Orchestrator W
  start_of world =
      let (metadata, factory) =
        create behind.stamps (or_default options.record_factory (new_factory run_id_of)) none (
          run_metadata theory_path (lib.utf8_length theory_text) options.run_mode
            options.target_max_tasks) in
      new_orchestrator factory
        (append_all lib.dumps_record (resolved_store old records_path_of options.record_store)
          metadata)
        (metadata ∷ []) (new_snapshot theory_path theory_text) world

  -- The run itself; three levels of fuel serve every chain of reviews.
  abbrev pub ran : W → Outcome RunState × Orchestrator W
  ran world = run_until_terminal run_parts 3 options.max_steps (start_of world)

  unfoldable pub execute : W → Execution W
  execute world =
      let (files, end) =
        export_after lib run_parts run_id_of records_path_of (ran world).0 (ran world).1 in
      record {
        outcome = (ran world).0;
        run = end;
        stores = end.record_store;
        loggers =
            emit_events lib.now lib.dumps_event
              (or_default options.logger (default_logger old run_id_of options.log_file))
              end.events;
        files = files;
      }
