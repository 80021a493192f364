-- ===== src/Tests/Engines.antt =====
-- A server that proves "by auto" from any state, and the engine and the localizer on it.
use isabelle_repl.Base.{
  pure, Option, some, ℕ, suc, int_eq, lookup, pos, ltb_ℤ, ◌≡◌, refl, true, false, none, List, [],
  ◌∷◌, returned, raised, Outcome, return, raise, out_of_fuel, string_eq, foreign_error, ◌==◌,
  if◌then◌else◌, ◌>>=◌, send,
}
use isabelle_repl.Model.{LocalizedTask, TaskResult, bare_result, failed, theorem_closed}
use isabelle_repl.Client.{
  list_theory_commands, init_after_header, init_state, is_success, StateMessage, Stub,
  TheoryCommand, success_reply, execute, parse_state_result, proof_is_finished,
}
use isabelle_repl.Contracts.{contract_for_block_kind}
use isabelle_repl.Snapshot.{new_snapshot, set_anchor, replacement_for_line}
use isabelle_repl.Engine.Adapters.{
  ValidationContext, default_registry, registry_validate, terminal_proof_step_adapter,
}
use isabelle_repl.Engine.Controller.{
  is_passed, annotate_validation, validate_execution, controller_run, run_with_source,
  generate_candidates, rules_for_block, try_candidates,
}
use isabelle_repl.Engine.Contracts.{fulfils_some, registry_validate-fulfils}
use isabelle_repl.Engine.Fallback.{
  run, try_blocks, fallback_candidates, chain_candidates, effective_spec,
}
use isabelle_repl.Engine.Budget.{IsRepair, run-IsRepair}
use isabelle_repl.Localizer.{
  Settings, Localizer, next_task, ensure_commands_loaded, load_commands, task_among, ensure_anchor,
  anchor_from, bootstrap_anchor, bootstrap_from, scan, scan_command, localize_failure,
  find_header_index,
}
use isabelle_repl.Engine.Continuations.{run-choose_continuation}
use isabelle_repl.Orchestrator.Contexts.{continuation_for_result}
use isabelle_repl.Orchestrator.Reviews.{choose_continuation, finalize_accepted_continuation}
use isabelle_repl.Localizer.Tasks.{IsStartable, next_task-IsStartable}
use isabelle_repl.Localizer.Laws.{next_task-keeps_patches, next_task-cursor_monotonic}
use isabelle_repl.Tests.Runs.{test_parts, test_start, test_spec, test_task}

-- A message with the number of its status.
abbrev message : ℕ → StateMessage
message status = record {
  state_id = "s2";
  status = pos status;
  error_msg = "";
  proof_level = pos 0;
  mode = pos 1;
  proof_state_text = "";
}

abbrev commands : List TheoryCommand
commands =
    (record { text = "theory A begin"; kind = "theory"; line = pos 1 })
    ∷ (record { text = "by simp"; kind = "by"; line = pos 2 })
    ∷ []

abbrev pub test_stub : Stub ℕ
test_stub = record {
  create_session = λ a b c d w. (returned "session", w);
  destroy_session = λ a w. (returned tt, w);
  load_theory = λ a b w. (returned (pos 2), w);
  list_theory_commands = λ a b c w. (returned commands, w);
  init_state = λ a b c d e w. (returned (success_reply (message 0)), w);
  drop_state = λ a w. (returned tt, w);
  drop_all_states = λ a w. (returned tt, w);
  execute =
      λ state tactic c d w. (returned (message (if tactic == "by auto" then 1 else 2)), suc w);
  execute_batch = λ a b c d w. (returned [], w);
  run_sledgehammer = λ a b c w. (returned (false, "", none), w);
  get_state_info = λ a b w. (raised (foreign_error "unavailable"), w);
}

abbrev result_of : Outcome TaskResult → TaskResult
result_of (return r) = r
result_of (raise e) = bare_result "" failed
result_of out_of_fuel = bare_result "" failed

abbrev engine_result : TaskResult
engine_result = result_of (run test_stub 30000 true test_spec 0).0

run-IsRepair_example : IsRepair test_stub 30000 true test_spec engine_result
unfolding run try_blocks fallback_candidates chain_candidates contract_for_block_kind effective_spec
    controller_run run_with_source generate_candidates rules_for_block try_candidates ◌>>=◌ execute
    send parse_state_result string_eq annotate_validation validate_execution registry_validate
    lookup default_registry terminal_proof_step_adapter proof_is_finished
run-IsRepair_example = run-IsRepair test_stub 30000 true test_spec 0 engine_result refl

abbrev closing : ValidationContext
closing = record {
  block_kind = "TheoremShellBlock";
  block_contract = theorem_closed;
  entry_mode = "PROOF";
  entry_proof_level = pos 1;
  execution_result = parse_state_result (message 1);
}

registry_validate-fulfils_example :
    is_passed (registry_validate default_registry closing).status
    ≡ fulfils_some
        (contract_for_block_kind closing.block_kind)
        closing.entry_proof_level
        closing.execution_result
registry_validate-fulfils_example = registry_validate-fulfils closing

abbrev test_settings : Settings ℕ
test_settings = record {
  stub = test_stub;
  session_id = "session";
  theory_path = "A.thy";
  default_candidate_tactic = "by simp";
  allow_sledgehammer = true;
  timeout_ms = 30000;
}

abbrev test_localizer : Localizer ℕ
test_localizer = record {
  commands = none;
  header_index = pos 0;
  next_task_number = 0;
  snapshot = new_snapshot "A.thy" "theory A begin\nby simp";
  server = 0;
}

next_task-keeps_patches_example :
    let s = (next_task test_settings test_localizer).1.snapshot in
    (s.applied_replacements ≡ test_localizer.snapshot.applied_replacements)
    × (s.original_text ≡ test_localizer.snapshot.original_text)
    × (s.current_text ≡ test_localizer.snapshot.current_text)
next_task-keeps_patches_example = next_task-keeps_patches test_settings test_localizer

next_task-cursor_monotonic_example :
    ltb_ℤ
      (next_task test_settings test_localizer).1.snapshot.command_cursor
      test_localizer.snapshot.command_cursor
    ≡ false
next_task-cursor_monotonic_example = next_task-cursor_monotonic test_settings test_localizer

abbrev task_of : Outcome (Option LocalizedTask) → LocalizedTask
task_of (return (some t)) = t
task_of _ = test_task

abbrev found_task : LocalizedTask
found_task = task_of (next_task test_settings test_localizer).0

next_task-IsStartable_example : IsStartable test_settings found_task
unfolding next_task ensure_commands_loaded load_commands task_among ensure_anchor anchor_from
    bootstrap_anchor bootstrap_from scan scan_command localize_failure find_header_index
    list_theory_commands init_after_header init_state set_anchor replacement_for_line ◌>>=◌ execute
    send parse_state_result is_success string_eq
next_task-IsStartable_example = next_task-IsStartable test_settings test_localizer found_task refl

run-choose_continuation_example :
    choose_continuation test_parts (pure false) test_spec engine_result test_start
    ≡ finalize_accepted_continuation test_parts engine_result.task_id
        (continuation_for_result engine_result)
        test_start
unfolding run try_blocks fallback_candidates chain_candidates contract_for_block_kind effective_spec
    controller_run run_with_source generate_candidates rules_for_block try_candidates ◌>>=◌ execute
    send parse_state_result string_eq annotate_validation validate_execution registry_validate
    lookup default_registry terminal_proof_step_adapter proof_is_finished
run-choose_continuation_example =
    run-choose_continuation test_stub 30000 true test_spec 0 engine_result refl test_parts
      (pure false) test_spec test_start
