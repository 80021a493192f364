-- ===== src/Orchestrator/Depth/Runs.antt =====
-- The loop of `run_until_terminal` ends: its rounds are bounded by `max_steps`, and three levels of
-- fuel are enough for the reviews of a round.
use isabelle_repl.Base.{
  ℤ, ℕ, zero, suc, ◌≢◌, Bool, true, false, Option, none, some, String, Action, Attempt, returned,
  raised, settle, out_of_fuel, Ends, Ends-pure, Ends-gets, Ends-if, Ends-bind, Ends-modify,
  ends_rules,
}
use isabelle_repl.Model.{
  TaskSpec, TaskResult, PolicyDecision, PolicyDecisionKind, allow, deny, requires_review,
  LocalizedTask, TaskOutcome, failed, escalated, TerminalReason, theory_wide, target_boundary,
  RunMode,
}
use isabelle_repl.Orchestrator.State.{Parts, Orchestrator}
use isabelle_repl.Orchestrator.Recording.{record_terminal, record_terminal_for}
use isabelle_repl.Orchestrator.Resume.{resume, resume_from_review, artifact_decided, gate_or_review}
use isabelle_repl.Orchestrator.Loop.{
  take_next, is_artifact, finalize_mode, finalize_without_next_task, run_task, stop_failed,
  review_escalated, accept_result, handle_result, handle_task, round, proceed, loop, conclude,
  run_until_terminal,
}
use isabelle_repl.Orchestrator.Recording.{record_task}
use isabelle_repl.Orchestrator.Reviews.{auto_resolve, apply_accepted_artifact}
use isabelle_repl.Orchestrator.Depth.{
  emit-Ends, call-Ends, record_continuation-Ends, note_policy-Ends, append_record-Ends,
  enter_review-Ends,
}
use isabelle_repl.Orchestrator.Depth.Continuations.{apply_accepted_artifact-Ends}
use isabelle_repl.Orchestrator.Depth.Levels.{resume_from_review-Ends}

module _ {W : Type 0} (parts : Parts W) (fuel : ℕ) where
  resume-Ends : Ends (resume parts (suc (suc (suc fuel))))
  unfolding resume resume_from_review
  resume-Ends = resume_from_review-Ends parts fuel none

  artifact_decided-Ends :
      (spec : TaskSpec) (d : PolicyDecision) (kind : PolicyDecisionKind)
      → Ends (artifact_decided parts (suc (suc (suc fuel))) spec d kind)
  unfolding artifact_decided auto_resolve
  artifact_decided-Ends spec d allow = Ends-pure true
  artifact_decided-Ends spec d deny = Ends-pure false
  artifact_decided-Ends spec d requires_review =
      search (ends_rules, enter_review-Ends parts, resume-Ends) depth 9

  gate_or_review-Ends : (spec : TaskSpec) → Ends (gate_or_review parts (suc (suc (suc fuel))) spec)
  unfolding gate_or_review
  gate_or_review-Ends spec =
      search (ends_rules, call-Ends parts, note_policy-Ends parts, artifact_decided-Ends)

  record_terminal-Ends : Ends (record_terminal parts)
  unfolding record_terminal record_terminal_for
  record_terminal-Ends = record { at = λ s. (for_reason s.terminal_reason).at s }
    where
      for_reason : (reason : Option TerminalReason) → Ends (record_terminal_for parts reason)
      for_reason none = Ends-pure tt
      for_reason (some reason) =
          Ends-bind _ _ (Ends-gets _)
            (λ s. Ends-bind _ _ (append_record-Ends parts none _) (λ _. Ends-pure tt))

  finalize_mode-Ends : (mode : RunMode) → Ends (finalize_mode parts mode)
  finalize_mode-Ends target_boundary = Ends-modify _
  finalize_mode-Ends theory_wide = Ends-modify _

  finalize-Ends : Ends (finalize_without_next_task parts)
  unfolding finalize_without_next_task
  finalize-Ends = finalize_mode-Ends parts.run_mode

  take_next-Ends : Ends (take_next parts)
  take_next-Ends = record { at = λ s. settled _ }
    where
      settled : (r : Attempt (Option LocalizedTask)) → settle r ≢ out_of_fuel
      settled (returned a) = λ h. cc
      settled (raised e) = λ h. cc

  run_task-Ends :
      (localized : LocalizedTask) (spec : TaskSpec) → Ends (run_task parts localized spec)
  unfolding run_task record_task
  run_task-Ends localized spec =
      search (ends_rules, emit-Ends parts, call-Ends parts, append_record-Ends parts) depth 9

  stop_failed-Ends : (task_id : String) → Ends (stop_failed parts task_id)
  unfolding stop_failed
  stop_failed-Ends task_id = search (ends_rules, record_continuation-Ends parts)

  review_escalated-Ends :
      (spec : TaskSpec) → Ends (review_escalated parts (suc (suc (suc fuel))) spec)
  unfolding review_escalated
  review_escalated-Ends spec = search (ends_rules, enter_review-Ends parts, resume-Ends) depth 9

  apply_accepted-Ends :
      (spec : TaskSpec)
      → Ends (apply_accepted_artifact parts (resume parts (suc (suc (suc fuel)))) spec)
  apply_accepted-Ends spec =
      apply_accepted_artifact-Ends parts (resume parts (suc (suc (suc fuel))))
        (λ s a. resume-Ends.at s) spec

  accept_result-Ends : (spec : TaskSpec) → Ends (accept_result parts (suc (suc (suc fuel))) spec)
  unfolding accept_result
  accept_result-Ends spec = search (ends_rules, gate_or_review-Ends, apply_accepted-Ends) depth 9

  handle_result-Ends :
      (spec : TaskSpec) (r : TaskResult) (outcome : TaskOutcome)
      → Ends (handle_result parts (suc (suc (suc fuel))) spec r outcome)
  unfolding handle_result
  handle_result-Ends spec r failed = stop_failed-Ends r.task_id
  handle_result-Ends spec r escalated = review_escalated-Ends spec
  handle_result-Ends spec r _ =
      Ends-if (is_artifact r) _ _ (accept_result-Ends spec) (Ends-pure true)

  handle_task-Ends : (t : Option LocalizedTask) → Ends (handle_task parts (suc (suc (suc fuel))) t)
  unfolding handle_task
  handle_task-Ends none = search (ends_rules, finalize-Ends)
  handle_task-Ends (some localized) = search (ends_rules, run_task-Ends, handle_result-Ends)

  round-Ends : Ends (round parts (suc (suc (suc fuel))))
  unfolding round
  round-Ends = search (ends_rules, take_next-Ends, handle_task-Ends)

  proceed-Ends :
      {rest : Action (Orchestrator W) (Unit {0})}
      → Ends rest
      → (go_on : Bool) → Ends (proceed parts (suc (suc (suc fuel))) rest go_on)
  proceed-Ends er true = er
  proceed-Ends er false = Ends-pure tt

  loop-Ends : (steps : ℕ) → Ends (loop parts (suc (suc (suc fuel))) steps)
  unfolding loop
  loop-Ends zero = Ends-pure tt
  loop-Ends (suc steps) = Ends-bind _ _ (Ends-gets _) λ running.
      Ends-bind _ _ (Ends-if running _ _ round-Ends (Ends-pure false))
        (proceed-Ends (loop-Ends steps))

  conclude-Ends : (max_steps : ℤ) → Ends (conclude parts (suc (suc (suc fuel))) max_steps)
  unfolding conclude
  conclude-Ends max_steps = search (ends_rules, emit-Ends parts, record_terminal-Ends) depth 9

  -- With three levels of fuel for the reviews, a run from any state returns a state or raises an
  -- exception: it never runs out of fuel.
  pub run_until_terminal-Ends :
      (max_steps : ℤ) (s : Orchestrator W)
      → (run_until_terminal parts (suc (suc (suc fuel))) max_steps s).0 ≢ out_of_fuel
  unfolding run_until_terminal
  run_until_terminal-Ends max_steps s = ends.at s
    where
      ends : Ends (run_until_terminal parts (suc (suc (suc fuel))) max_steps)
      ends = search (ends_rules, emit-Ends parts, loop-Ends, conclude-Ends)
