-- ===== src/Tests/Runs.antt =====
-- A run whose localizer finds one task, whose engine repairs it, and whose reviewer approves.
use isabelle_repl.Base.{
  ℕ, zero, suc, pos, ◌≢◌, refl, true, none, some, [], ◌∷◌, out_of_fuel, return, returned, Option,
  ◌≡◌,
}
use isabelle_repl.Model.{
  finished, theory_wide, proof_body_failure, repair, accepted, passed, requires_review,
  artifact_acceptance, approve_current_artifact, LocalizedTask, TaskSpec, TaskResult, bare_result,
  ValidationResult, no_details, PolicyDecision, policy_requires_review, readable,
  InterventionResponse,
}
use isabelle_repl.Records.{new_factory}
use isabelle_repl.Snapshot.{new_snapshot}
use isabelle_repl.Orchestrator.State.{Parts, Orchestrator, new_orchestrator}
use isabelle_repl.Orchestrator.Contexts.{all_response_kinds}
use isabelle_repl.Orchestrator.Loop.{new_task_spec, run_until_terminal}
use isabelle_repl.Orchestrator.Depth.{Awaits, enter_review-Awaits}
use isabelle_repl.Orchestrator.Terminal.{IsUnchanged, run_until_terminal-terminal}
use isabelle_repl.Orchestrator.Depth.Runs.{run_until_terminal-Ends}
use isabelle_repl.Orchestrator.Reviews.{enter_review, integrate_artifact}
use isabelle_repl.Orchestrator.Invariants.Entries.{HasEntry, integrate_artifact-HasEntry}
use isabelle_repl.Orchestrator.Invariants.Applied.{IsApplied, run_until_terminal-IsApplied}
use isabelle_repl.Orchestrator.Invariants.Accepted.{IsCounted, run_until_terminal-IsCounted}
use isabelle_repl.Orchestrator.Invariants.Numbering.{IsNumbered, run_until_terminal-IsNumbered}

abbrev pub test_task : LocalizedTask
test_task = record {
  task_id = "task-1";
  block_kind = "TerminalProofStepBlock";
  failure_kind = proof_body_failure;
  block_text = "by simp";
  entry_checkpoint = record { mode = some "PROOF"; proof_level = some (pos 1) };
  metadata = record {
    source_state_id = some "s1";
    candidate_tactic = some "by simp";
    allow_sledgehammer = some true;
    line = some (readable (pos 4));
    command_line = none;
    command_kind = some "by";
    error_msg = some "failed";
    fallback_chain = none;
    fallback_origin = none;
    active_block_kind = none;
    drift_fallback_reason = none;
    localization_confidence = none;
  };
  fallback_candidates = [];
}

abbrev pub test_spec : TaskSpec
test_spec = new_task_spec "run-1" test_task

abbrev passed_validation : ValidationResult
passed_validation = record { status = passed; reason = ""; details = no_details }

abbrev pub test_result : TaskResult
test_result = record (bare_result "task-1" accepted) {
  artifact_kind = some repair;
  artifact_text = some "by auto";
  validation = some passed_validation;
  attempted_candidates = "by auto" ∷ [];
}

abbrev pub review_decision : PolicyDecision
review_decision = record {
  kind = requires_review;
  scope = artifact_acceptance;
  triggered_rule_ids = "high_risk_failure_requires_review" ∷ [];
}

abbrev pub approval : InterventionResponse
approval = record {
  kind = approve_current_artifact;
  replacement_artifact_text = none;
  invalid_response_reason = none;
  original_response_kind = none;
}

-- The world counts the tasks that are found.
abbrev find_task : ℕ → Option LocalizedTask
find_task zero = some test_task
find_task (suc n) = none

abbrev pub test_parts : Parts ℕ
test_parts = record {
  theory_run_id = "run-1";
  next_task = λ run s n. (returned (find_task n), s, suc n);
  run_task = λ spec n. (returned test_result, n);
  validate_candidate = λ spec text n. (returned passed_validation, n);
  decide = λ context n. (returned review_decision, n);
  handle = λ context n. (returned approval, n);
  dumps_record = λ r. r.record_kind;
  stamps = record { uuid_hex = λ n. "0"; now_iso = λ n. "now" };
  iterate = λ kinds. kinds;
  has_logger = true;
  auto_resolve_review = true;
  run_mode = theory_wide;
  target_max_tasks = none;
}

abbrev pub test_start : Orchestrator ℕ
test_start =
    new_orchestrator (new_factory "run-1") [] []
      (new_snapshot "A.thy" "theory A\nbegin\nlemma a\nby simp") 0

run_until_terminal-IsApplied_example :
    IsApplied (run_until_terminal test_parts 3 (pos 20) test_start).1
run_until_terminal-IsApplied_example =
    run_until_terminal-IsApplied test_parts 3 (pos 20) test_start (λ s. refl)
      (record { patches = refl; artifacts = refl; once = tt })

run_until_terminal-IsCounted_example :
    IsCounted (run_until_terminal test_parts 3 (pos 20) test_start).1
run_until_terminal-IsCounted_example =
    run_until_terminal-IsCounted test_parts 3 (pos 20) test_start refl

run_until_terminal-IsNumbered_example :
    IsNumbered (run_until_terminal test_parts 3 (pos 20) test_start).1
run_until_terminal-IsNumbered_example =
    run_until_terminal-IsNumbered test_parts 3 (pos 20) test_start
      (record { numbers = tt; last = refl })

run_until_terminal-Ends_example :
    (run_until_terminal test_parts 3 (pos 20) test_start).0 ≢ out_of_fuel
run_until_terminal-Ends_example = run_until_terminal-Ends test_parts 0 (pos 20) test_start

enter_review-Awaits_example :
    Awaits policy_requires_review all_response_kinds
      (enter_review test_parts test_spec review_decision policy_requires_review all_response_kinds
        test_start).1
enter_review-Awaits_example =
    enter_review-Awaits test_parts test_spec review_decision policy_requires_review
      all_response_kinds test_start

integrate_artifact-HasEntry_example :
    ((integrate_artifact test_parts test_spec test_result repair "by auto" test_start).0
      ≡ return tt)
    × HasEntry test_spec test_result repair "by auto"
        (pos 4)
        test_start
        (integrate_artifact test_parts test_spec test_result repair "by auto" test_start).1
integrate_artifact-HasEntry_example =
    integrate_artifact-HasEntry test_parts test_spec test_result repair "by auto" test_start (pos 4)
      refl

abbrev finished_run : Orchestrator ℕ
finished_run = record test_start { state = finished }

run_until_terminal-terminal_example :
    ((run_until_terminal test_parts 3 (pos 20) finished_run).0 ≡ return finished)
    × IsUnchanged finished_run (run_until_terminal test_parts 3 (pos 20) finished_run).1
run_until_terminal-terminal_example =
    run_until_terminal-terminal test_parts 3 (pos 20) finished_run refl
