-- ===== src/RepairOnce.antt =====
-- python/scripts/run_repair_once.py: one repair run of a theory against a REPL server, with the
-- localizer, the engine, the policy gate and the hook of the library.
mod Setup
pub mod Patches
pub mod Sessions
unfoldable pub use Setup.*
use isabelle_repl.Base.{
  ℕ, zero, suc, ℤ, negsuc, String, ◌<>◌, Bool, true, false, not, Option, none, some, List, [], ◌∷◌,
  map, or_default, Exception, foreign_error, Outcome, return, raise, out_of_fuel, Action, Attempt,
  returned, raised, settle, pure, throw, finally, ◌>>=◌, ◌>>◌, if◌then◌else◌,
}
use isabelle_repl.Model.{
  RunState, RunMode, theory_wide, InterventionResponse, InterventionResponseKind,
  approve_current_artifact, RunRecord, RecordPayload, task, continuation,
}
use isabelle_repl.Records.{Stamps, list_records}
use isabelle_repl.Policy.{PolicyConfig, decide}
use isabelle_repl.Policy.Loader.Files.{ConfigSource, load_policy_config}
use isabelle_repl.Hooks.{StaticReviewHook, fixed, handle}
use isabelle_repl.Client.{TheoryCommand, Stub, create_session, destroy_session, load_theory}
use isabelle_repl.Localizer.{Settings, Localizer, next_task}
use isabelle_repl.Engine.Fallback.{run, validate_candidate}
use isabelle_repl.Snapshot.{Snapshot}
use isabelle_repl.Orchestrator.State.{Parts}
use isabelle_repl.TheoryRun.{Libraries, Options, OldLines, Execution, execute, returned_store}

module _ {W : Type 0} (stub : Stub W) (host : Host) (args : Arguments) where
  abbrev pub working_dir_of : String → Option String → Attempt String
  working_dir_of theory_file none = returned (host.parent theory_file)
  working_dir_of theory_file (some dir) = host.resolve dir

  abbrev resolve_all : List String → Attempt (List String)
  resolve_all [] = returned []
  resolve_all (dir ∷ dirs) = with_root (host.resolve dir) (resolve_all dirs)

  abbrev roots_if : Attempt (List String) → Attempt (Option (List String))
  roots_if (returned dirs) = returned (some dirs)
  roots_if (raised e) = raised e

  abbrev pub session_roots_of : Option (List String) → Attempt (Option (List String))
  session_roots_of none = returned none
  session_roots_of (some []) = returned none
  session_roots_of (some (dir ∷ dirs)) = roots_if (resolve_all (dir ∷ dirs))

  abbrev pub script_run_id : String
  script_run_id = "run-" <> host.libraries.run_uuid_hex

  abbrev script_records_path : Option String → String
  script_records_path none =
      host.libraries.join_path (host.libraries.join_path ".artifacts" "repair_runs")
        (script_run_id <> ".jsonl")
  script_records_path (some path) = path

  abbrev pub settings_of : Paths → String → Settings W
  settings_of paths session_id = record {
    stub = stub;
    session_id = session_id;
    theory_path = paths.theory_file;
    default_candidate_tactic = args.candidate_tactic;
    allow_sledgehammer = not args.disable_sledgehammer;
    timeout_ms = args.timeout_ms;
  }

  abbrev pub options_of : Options
  options_of = record {
    max_steps = args.max_steps;
    run_id = some script_run_id;
    record_store = none;
    record_factory = none;
    records_path = some (script_records_path args.records_path);
    log_file = args.log_file;
    logger = none;
    run_mode = args.run_mode;
    target_max_tasks = args.target_max_tasks;
  }

  -- `run.execute(…)` with the theory's text.
  abbrev pub execution_of : Paths → String → PolicyConfig → String → W → Execution (ReplWorld W)
  execution_of paths session_id config text server =
      execute host.libraries host.old
        (repl_parts (settings_of paths session_id) host.stamps host.iterate config approving_hook)
        paths.theory_file text options_of (new_world server)

  abbrev pub report_of : Execution (ReplWorld W) → Outcome RunState → Outcome Report
  report_of e (return final_state) =
      let records = list_records (returned_store none e.stores) in
      report_with
        (record {
          run_id = script_run_id;
          final_state = final_state;
          task_records = task_count records;
          continuation_records = continuation_count records;
          records_file = "";
        })
        (host.absolute (script_records_path args.records_path))
  report_of e (raise x) = raise x
  report_of e out_of_fuel = out_of_fuel

  unfoldable pub execute_run : Paths → String → PolicyConfig → String → Action W Report
  execute_run paths session_id config text server =
      let e = execution_of paths session_id config text server in
      (report_of e e.outcome, e.run.world.server)

  -- The body of the `try` that the session's end follows.
  unfoldable pub repair_in_session : Paths → PolicyConfig → String → Action W Report
  repair_in_session paths config session_id = do
    load_theory stub session_id paths.theory_file
    text ← take (host.read_theory paths.theory_file)
    execute_run paths session_id config text

  abbrev pub new_session : Paths → Action W String
  new_session paths =
      create_session stub paths.isa_path args.logic paths.working_dir paths.session_roots

  unfoldable pub with_config : PolicyConfig → Paths → Action W Report
  with_config config paths = do
    session_id ← new_session paths
    finally (repair_in_session paths config session_id) (destroy_session stub session_id)

  -- What follows the check of the theory's file.
  unfoldable pub with_theory : String → Action W Report
  with_theory theory_file = do
    working_dir ← take (working_dir_of theory_file args.working_dir)
    session_roots ← take (session_roots_of args.dir)
    config ← take (load_policy_config host.config_source args.policy_config)
    isa_path ← take (host.resolve args.isa_path)
    with_config config (record {
      theory_file = theory_file;
      working_dir = working_dir;
      session_roots = session_roots;
      isa_path = isa_path;
    })

  unfoldable pub check_theory : String → Action W Report
  check_theory theory_file =
      if host.is_file theory_file
      then with_theory theory_file
      else throw (foreign_error ("Theory file does not exist: " <> theory_file))

  -- `main`, up to the printing of the report.
  unfoldable pub main : Action W Report
  main = do theory_file ← take (host.resolve args.theory_file); check_theory theory_file
