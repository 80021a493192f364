-- ===== src/Tests/Theories.antt =====
-- Whole runs of a theory, and the state machine of their orchestrator.
use isabelle_repl.Base.{
  if◌then◌else◌, pos, All, ◌>>=◌, gets, modify, arith, ℕ, String, ◌<>◌, ◌≡◌, refl, not, ◌&&◌, none,
  some, List, [], ◌∷◌, ◌++◌, map, return,
}
use isabelle_repl.Model.{RunState, active, awaiting_review, policy_requires_review, theory_wide}
use isabelle_repl.Records.{
  memory, jsonl, list_records, append_records, append_records-agree, record_line,
}
use isabelle_repl.Observability.{HaveLogged, emit_events, emit_events-HaveLogged}
use isabelle_repl.Orchestrator.State.{Orchestrator}
use isabelle_repl.Orchestrator.Contexts.{all_response_kinds, review_context}
use isabelle_repl.Orchestrator.Loop.{
  run_until_terminal, loop, round, handle_task, finalize_without_next_task,
}
use isabelle_repl.Orchestrator.Terminal.{loop-more_steps}
use isabelle_repl.Orchestrator.Resume.{resume_from_review}
use isabelle_repl.Orchestrator.Invariants.Numbering.{IsNumbered}
use isabelle_repl.Orchestrator.Phases.{Reaches}
use isabelle_repl.Orchestrator.Phases.Loop.{
  IsConsistent, run_until_terminal-IsConsistent, resume_from_review-IsConsistent,
}
use isabelle_repl.TheoryRun.{Libraries, Options, Execution, returned_store}
use isabelle_repl.Orchestrator.Invariants.Stamped.{HasStamp}
use isabelle_repl.Orchestrator.Invariants.Ordered.{IsOrdered}
use isabelle_repl.TheoryRun.Order.{execute-IsOrdered}
use isabelle_repl.TheoryRun.Stores.{execute-stores}
use isabelle_repl.TheoryRun.Stamps.{execute-IsStamped}
use isabelle_repl.TheoryRun.Provenance.{patch_links, execute-links}
use isabelle_repl.TheoryRun.Links.{artifact_links}
use isabelle_repl.TheoryRun.Laws.{
  executed, is_nil, exported_outcome, execute-IsNumbered, execute-files,
}
use isabelle_repl.Tests.Runs.{
  test_parts, test_start, test_spec, test_result, review_decision, approval,
}

abbrev pub test_libraries : Libraries
test_libraries = record {
  run_uuid_hex = "0";
  dumps_record = λ r. r.record_kind;
  dumps_event = λ r. r.event;
  dumps_patch = λ p. p.format;
  now = λ logger. "now";
  unified_diff = λ before after from_file to_file lineterm. after;
  utf8_length = λ text. 0;
  parent = λ path. "runs";
  join_path = λ path name. path <> ("/" <> name);
}

abbrev test_options : Options
test_options = record {
  max_steps = pos 5;
  run_id = none;
  record_store = none;
  record_factory = none;
  records_path = none;
  log_file = some "run.log";
  logger = none;
  run_mode = theory_wide;
  target_max_tasks = none;
}

abbrev pub test_text : String
test_text = "theory A\nbegin\nlemma a\nby simp"

abbrev pub old_lines : String → List String
old_lines path = "old" ∷ []

abbrev test_execution : Execution ℕ
test_execution = executed test_libraries old_lines test_parts "A.thy" test_text test_options 0

execute-IsNumbered_example : IsNumbered test_execution.run
execute-IsNumbered_example =
    execute-IsNumbered test_libraries old_lines test_parts "A.thy" test_text test_options 0 refl

execute-stores_example :
    (list_records (returned_store none test_execution.stores) ≡ test_execution.run.records)
    × (test_execution.stores
        ≡ memory test_execution.run.records
          ∷ jsonl (
              ("old" ∷ [])
              ++ map (record_line test_libraries.dumps_record) test_execution.run.records)
          ∷ [])
execute-stores_example =
    execute-stores test_libraries old_lines test_parts "A.thy" test_text test_options 0 refl

execute-files_example :
    is_nil test_execution.files
    ≡ not (
        exported_outcome test_execution.outcome
        && not (is_nil test_execution.run.applied_artifact_task_ids))
execute-files_example =
    execute-files test_libraries old_lines test_parts "A.thy" test_text test_options 0 (λ s. refl)

execute-links_example :
    patch_links test_execution.run.records
    ≡ (if is_nil test_execution.files then [] else artifact_links test_execution.run.records ∷ [])
execute-links_example =
    execute-links test_libraries old_lines test_parts "A.thy" test_text test_options 0 (λ s. refl)

run_until_terminal-IsConsistent_example :
    IsConsistent test_parts (run_until_terminal test_parts 3 (pos 20) test_start).1
    × Reaches active (run_until_terminal test_parts 3 (pos 20) test_start).1.state
    × ((st : RunState)
        → (run_until_terminal test_parts 3 (pos 20) test_start).0 ≡ return st
        → (run_until_terminal test_parts 3 (pos 20) test_start).1.state ≡ st)
run_until_terminal-IsConsistent_example =
    run_until_terminal-IsConsistent test_parts 3 test_start (pos 20)
      (record { fits = tt; target = λ e. cc })

-- The test's run, in a review of its artifact.
abbrev in_review : Orchestrator ℕ
in_review = record test_start {
  state = awaiting_review;
  pending_review = some (record {
    task_spec = test_spec;
    context = review_context test_result review_decision policy_requires_review all_response_kinds;
  });
  current_result = test_result;
}

resume_from_review-IsConsistent_example :
    IsConsistent test_parts (resume_from_review test_parts 3 (some approval) in_review).1
    × Reaches awaiting_review (resume_from_review test_parts 3 (some approval) in_review).1.state
resume_from_review-IsConsistent_example =
    resume_from_review-IsConsistent test_parts 3 in_review (some approval)
      (record { fits = tt; target = λ e. cc })

emit_events-HaveLogged_example :
    HaveLogged test_libraries.now test_libraries.dumps_event test_execution.run.events
      ((record { run_id = "run-1"; stream = "old" ∷ [] }) ∷ [])
      (emit_events test_libraries.now test_libraries.dumps_event
        ((record { run_id = "run-1"; stream = "old" ∷ [] }) ∷ [])
        test_execution.run.events)
emit_events-HaveLogged_example =
    emit_events-HaveLogged test_libraries.now test_libraries.dumps_event
      ((record { run_id = "run-1"; stream = "old" ∷ [] }) ∷ []) test_execution.run.events

append_records-agree_example :
    append_records test_libraries.dumps_record
      (memory [] ∷ jsonl ("old" ∷ []) ∷ [])
      test_execution.run.records
    ≡ memory ([] ++ test_execution.run.records)
      ∷ jsonl
          (("old" ∷ []) ++ map (record_line test_libraries.dumps_record) test_execution.run.records)
      ∷ []
append_records-agree_example =
    append_records-agree test_libraries.dumps_record [] ("old" ∷ []) test_execution.run.records

-- The test's run when its localizer has no task left.
abbrev last_start : Orchestrator ℕ
last_start = record test_start { world = 1 }

loop-more_steps_example : loop test_parts 3 20 last_start ≡ loop test_parts 3 1 last_start
unfolding loop round handle_task finalize_without_next_task ◌>>=◌ gets modify
loop-more_steps_example = loop-more_steps test_parts 3 1 20 last_start (omega arith) refl refl

execute-IsStamped_example : All (HasStamp "v1.5" "run-0") test_execution.run.records
execute-IsStamped_example =
    execute-IsStamped test_libraries old_lines test_parts "A.thy" test_text test_options 0 refl

execute-IsOrdered_example : IsOrdered none test_execution.run.records
execute-IsOrdered_example =
    execute-IsOrdered test_libraries old_lines test_parts "A.thy" test_text test_options 0
