-- ===== src/Tests/Scripts.antt =====
-- The scripts, on the server of the engine's tests.
use isabelle_repl.Base.{
  ◌∷◌, [], if◌then◌else◌, raised, ◌⊎◌, String, value_error, ℕ, pos, int_eq, refl, ◌↔◌, ◌>>=◌, send,
  string_eq, occurs_in, starts_with, Outcome, return, Option, none, ◌≡◌, true, false, not, ◌&&◌,
  returned,
}
use isabelle_repl.Model.{theory_wide}
use isabelle_repl.Policy.{default_config}
use isabelle_repl.Policy.Loader.Laws.{print_config}
use isabelle_repl.Policy.Loader.Files.{
  ConfigSource, content, not_found, unreadable, document, load_policy_config, resolved_path,
  load_policy_config-raised,
}
use isabelle_repl.TheoryRun.{Execution}
use isabelle_repl.TheoryRun.Provenance.{patch_links}
use isabelle_repl.TheoryRun.Links.{artifact_links}
use isabelle_repl.TheoryRun.Laws.{is_nil, exported_outcome}
use isabelle_repl.TheoryRun.Patches.{ArePatch}
use isabelle_repl.RepairOnce.{ReplWorld, Arguments, Host, Paths, execution_of, main}
use isabelle_repl.RepairOnce.Patches.{execution_of-ArePatch, execution_of-patches}
use isabelle_repl.RepairOnce.Sessions.{IsLeft, main-IsLeft}
use isabelle_repl.Client.{
  list_theory_commands, init_after_header, init_state, execute, is_success, parse_state_result,
}
use isabelle_repl.Demo.{
  RepairHook, Repairs, execute_and_repair, process_commands, process_command, repair_by_hook,
  try_repairs, ask_for_tactic,
}
use isabelle_repl.Demo.Laws.{IsSoundIfAny, execute_and_repair-IsSound}
use isabelle_repl.Gate.{GateHost, IsAccepted, gate_main, check_required_docs, run_acceptance_tests}
use isabelle_repl.Gate.Laws.{gate_main-IsAccepted}
use isabelle_repl.Tests.Engines.{test_stub}
use isabelle_repl.Tests.Theories.{test_libraries, old_lines, test_text}

abbrev test_host : Host
test_host = record {
  resolve = λ path. returned path;
  absolute = λ path. returned path;
  parent = λ path. "theories";
  is_file = λ path. true;
  read_theory = λ path. returned test_text;
  old = old_lines;
  libraries = test_libraries;
  config_source = record {
    default_path = "repair_policy.toml";
    resolve = λ path. returned path;
    read_text = λ path. content "";
    loads = λ text. document (print_config default_config);
    repr = λ text. text;
  };
  stamps = record { uuid_hex = λ n. "0"; now_iso = λ n. "now" };
  iterate = λ kinds. kinds;
}

abbrev test_args : Arguments
test_args = record {
  theory_file = "A.thy";
  isa_path = "isabelle";
  logic = "HOL";
  working_dir = none;
  dir = none;
  timeout_ms = 30000;
  max_steps = pos 20;
  run_mode = theory_wide;
  target_max_tasks = none;
  candidate_tactic = "by auto";
  disable_sledgehammer = false;
  records_path = none;
  log_file = none;
  policy_config = none;
}

abbrev test_paths : Paths
test_paths = record {
  theory_file = "A.thy";
  working_dir = "theories";
  session_roots = none;
  isa_path = "isabelle";
}

abbrev test_run : Execution (ReplWorld ℕ)
test_run =
    execution_of test_stub test_host test_args test_paths "session" default_config test_text 0

execution_of-patches_example :
    (is_nil test_run.files
      ≡ not (
          exported_outcome test_run.outcome && not (is_nil test_run.run.applied_artifact_task_ids)))
    × (patch_links test_run.run.records
        ≡ (if is_nil test_run.files then [] else artifact_links test_run.run.records ∷ []))
execution_of-patches_example =
    execution_of-patches test_stub test_host test_args test_paths "session" default_config test_text
      0

execution_of-ArePatch_example :
    ArePatch test_libraries "run-0" ".artifacts/repair_runs/run-0.jsonl" "A.thy" test_text
      test_run.run test_run.files
execution_of-ArePatch_example =
    execution_of-ArePatch test_stub test_host test_args test_paths "session" default_config
      test_text 0

main-IsLeft_example :
    IsLeft test_stub test_host test_args 0 (main test_stub test_host test_args 0).1
main-IsLeft_example = main-IsLeft test_stub test_host test_args 0

abbrev test_gate : GateHost
test_gate = record {
  repo_root = "/repo";
  is_file = λ path. true;
  exists = λ path. false;
  read_text = λ path.
      returned
        "Drawio Node Mapping, PRD Requirement Mapping, State Definitions, Invariants, Trigger Conditions, terminal_reason, Phase 0: Baseline and Guardrails, Phase 1: Incremental Localizer + Snapshot";
  pytest = record { returncode = pos 0; stdout = "12 passed" };
}

gate_main-IsAccepted_example : (gate_main test_gate ≡ none) ↔ IsAccepted test_gate
gate_main-IsAccepted_example = gate_main-IsAccepted test_gate

test_gate-passes : gate_main test_gate ≡ none
unfolding gate_main check_required_docs run_acceptance_tests occurs_in starts_with int_eq
test_gate-passes = refl

-- A hook that always answers with the text that the server accepts.
abbrev test_hook : RepairHook ℕ
test_hook call w = (returned "by auto", w)

abbrev end_of : Outcome (Option Repairs) → Option Repairs
end_of (return end) = end
end_of _ = none

abbrev demo_end : Option Repairs
demo_end = end_of (execute_and_repair test_stub test_hook "A.thy" 30000 "session" 3 false 0).0

execute_and_repair-IsSound_example :
    IsSoundIfAny test_stub 30000 test_hook "A.thy" 3 "session" demo_end
unfolding execute_and_repair process_commands process_command repair_by_hook try_repairs ◌>>=◌
    list_theory_commands init_after_header init_state execute send parse_state_result is_success
    string_eq ask_for_tactic
execute_and_repair-IsSound_example =
    execute_and_repair-IsSound test_stub 30000 test_hook "A.thy" 3 "session" false 0 demo_end refl

abbrev missing_config : ConfigSource
missing_config = record (test_host.config_source) { read_text = λ path. not_found }

load_policy_config-raised_example :
    ((message : String) × (value_error "Policy config not found: repair_policy.toml"
        ≡ value_error message))
    ⊎ (resolved_path missing_config none
        ≡ raised (value_error "Policy config not found: repair_policy.toml"))
    ⊎ ((resolved : String) × (resolved_path missing_config none ≡ returned resolved)
        × (not_found ≡ unreadable (value_error "Policy config not found: repair_policy.toml")))
unfolding load_policy_config
load_policy_config-raised_example =
    load_policy_config-raised missing_config none
      (value_error "Policy config not found: repair_policy.toml") refl
