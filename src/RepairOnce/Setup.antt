-- ===== src/RepairOnce/Setup.antt =====
-- What python/scripts/run_repair_once.py starts from: its arguments, the world around it, and the parts
-- of the library behind the orchestrator's protocols.
use isabelle_repl.Base.{
  ℕ, suc, ℤ, negsuc, String, Bool, true, false, Option, none, List, [], ◌∷◌, foreign_error, Outcome,
  return, raise, out_of_fuel, Action, Attempt, returned, raised, settle,
}
use isabelle_repl.Model.{
  RunState, RunMode, theory_wide, InterventionResponseKind, approve_current_artifact, RunRecord,
  RecordPayload, task, continuation,
}
use isabelle_repl.Records.{Stamps}
use isabelle_repl.Policy.{PolicyConfig, decide}
use isabelle_repl.Policy.Loader.Files.{ConfigSource}
use isabelle_repl.Hooks.{StaticReviewHook, fixed, handle}
use isabelle_repl.Client.{TheoryCommand}
use isabelle_repl.Localizer.{Settings, Localizer, next_task}
use isabelle_repl.Engine.Fallback.{run, validate_candidate}
use isabelle_repl.Snapshot.{Snapshot}
use isabelle_repl.Orchestrator.State.{Parts}
use isabelle_repl.TheoryRun.{Libraries, OldLines}

-- The fields of the localizer that change, and the server. The snapshot that the localizer works on is
-- the run's.
pub record ReplWorld (W : Type 0) : Type 0 where
  pub commands : Option (List TheoryCommand)
  pub header_index : ℤ
  pub next_task_number : ℕ
  pub server : W

-- A new localizer.
abbrev pub new_world : {W : Type 0} → W → ReplWorld W
new_world server = record {
  commands = none;
  header_index = negsuc 0;
  next_task_number = 0;
  server = server;
}

-- No call of the localizer, the engine, the policy or the hook has fuel to run out of.
abbrev pub attempt : {A : Type 0} → Outcome A → Attempt A
attempt (return a) = returned a
attempt (raise e) = raised e
attempt out_of_fuel = raised (foreign_error "")

module _ {W : Type 0} where
  abbrev pub localizer_of : Snapshot → ReplWorld W → Localizer W
  localizer_of snapshot w = record {
    commands = w.commands;
    header_index = w.header_index;
    next_task_number = w.next_task_number;
    snapshot = snapshot;
    server = w.server;
  }

  abbrev pub world_of : Localizer W → ReplWorld W
  world_of l = record {
    commands = l.commands;
    header_index = l.header_index;
    next_task_number = l.next_task_number;
    server = l.server;
  }

  -- A call that reaches only the server.
  abbrev pub on_repl : {A : Type 0} → Action W A → ReplWorld W → Attempt A × ReplWorld W
  on_repl m w = let (r, server) = m w.server in (attempt r, record w { server = server })

module _ {W : Type 0} (settings : Settings W) (stamps : Stamps)
    (iterate : List InterventionResponseKind → List InterventionResponseKind)
    (config : PolicyConfig) (hook : StaticReviewHook) where
  -- The parts of the library behind the protocols; `execute` sets the rest of the fields.
  abbrev pub repl_parts : Parts (ReplWorld W)
  repl_parts = record {
    theory_run_id = "";
    next_task = λ run_id snapshot w.
        let (r, l) = next_task settings (localizer_of snapshot w) in
        (attempt r, l.snapshot, world_of l);
    run_task = λ spec. on_repl (run settings.stub settings.timeout_ms false spec);
    validate_candidate =
        λ spec text. on_repl (validate_candidate settings.stub settings.timeout_ms false spec text);
    decide = λ context w. (returned (decide config context), w);
    handle = λ context w. (returned (handle hook context), w);
    stamps = stamps;
    dumps_record = λ r. "";
    iterate = iterate;
    has_logger = true;
    auto_resolve_review = true;
    run_mode = theory_wide;
    target_max_tasks = none;
  }

-- The arguments of the command line.
pub record Arguments : Type 0 where
  pub theory_file : String
  pub isa_path : String
  pub logic : String
  pub working_dir : Option String
  pub dir : Option (List String)
  pub timeout_ms : ℕ
  pub max_steps : ℤ
  pub run_mode : RunMode
  pub target_max_tasks : Option ℤ
  pub candidate_tactic : String
  pub disable_sledgehammer : Bool
  pub records_path : Option String
  pub log_file : Option String
  pub policy_config : Option String

-- What the script takes from outside: the file system, the libraries, and the values that differ
-- from run to run. `expanduser().resolve()` may raise, and so may `resolve()`.
pub record Host : Type 0 where
  pub resolve : String → Attempt String
  pub absolute : String → Attempt String
  pub parent : String → String
  pub is_file : String → Bool
  pub read_theory : String → Attempt String
  pub old : OldLines
  pub libraries : Libraries
  pub config_source : ConfigSource
  pub stamps : Stamps
  pub iterate : List InterventionResponseKind → List InterventionResponseKind

-- The paths that the script resolves before it connects.
pub record Paths : Type 0 where
  pub theory_file : String
  pub working_dir : String
  pub session_roots : Option (List String)
  pub isa_path : String

-- What the script prints.
pub record Report : Type 0 where
  pub run_id : String
  pub final_state : RunState
  pub task_records : ℕ
  pub continuation_records : ℕ
  pub records_file : String

abbrev add_if_task : RecordPayload → ℕ → ℕ
add_if_task (task _ _ _ _) n = suc n
add_if_task _ n = n

abbrev add_if_continuation : RecordPayload → ℕ → ℕ
add_if_continuation (continuation _) n = suc n
add_if_continuation _ n = n

-- `sum(1 for r in record_list if r.record_kind.value == "task")`
abbrev pub task_count : List RunRecord → ℕ
task_count [] = 0
task_count (r ∷ rs) = add_if_task r.payload (task_count rs)

abbrev pub continuation_count : List RunRecord → ℕ
continuation_count [] = 0
continuation_count (r ∷ rs) = add_if_continuation r.payload (continuation_count rs)

abbrev pub approving_hook : StaticReviewHook
approving_hook = fixed (record {
  kind = approve_current_artifact;
  replacement_artifact_text = none;
  invalid_response_reason = none;
  original_response_kind = none;
})

-- An expression that may raise, and does not reach the server.
abbrev pub take : {W A : Type 0} → Attempt A → Action W A
take r server = (settle r, server)

abbrev pub with_root : Attempt String → Attempt (List String) → Attempt (List String)
with_root (raised e) rest = raised e
with_root (returned dir) (raised e) = raised e
with_root (returned dir) (returned dirs) = returned (dir ∷ dirs)

abbrev pub report_with : Report → Attempt String → Outcome Report
report_with report (returned path) = return (record report { records_file = path })
report_with report (raised e) = raise e
