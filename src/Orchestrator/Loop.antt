-- ===== src/Orchestrator/Loop.antt =====
-- `run_until_terminal`. The loop recurs on the steps that are left; a round answers whether the loop
-- goes on (`continue`, or the end of the body) or is left (`break`).
use isabelle_repl.Base.{
  negsuc, pos, ℤ, ℕ, zero, suc, String, Bool, true, false, ◌&&◌, Option, none, some, List, [], ◌∷◌,
  Action, settle, pure, gets, ◌>>=◌, ◌>>◌, if◌then◌else◌, or_default, is_some,
}
use isabelle_repl.Model.{
  RunState, completed, stopped, finished, RunMode, theory_wide, target_boundary, stop, TaskOutcome,
  failed, escalated, requires_review, artifact_acceptance, InterventionResponseKind,
  provide_replacement_artifact, request_committed_placeholder, request_stop, goal_closed,
  LocalizedTask, TaskSpec, TaskResult, PolicyDecision, task_escalated_requires_review, task_failed,
  stopped_task_failed, target_boundary_completed, theory_wide_finished,
}
use isabelle_repl.Hooks.{truthy_text}
use isabelle_repl.Contracts.{contract_for_block_kind}
use isabelle_repl.Orchestrator.State.{
  Parts, Orchestrator, run_started, task_selected, task_result, run_finished, run_paused, is_active,
  is_awaiting, is_terminal_state, call, set_terminal, set_result, emit,
}
use isabelle_repl.Orchestrator.Recording.{record_task, record_continuation, record_terminal}
use isabelle_repl.Orchestrator.Reviews.{enter_review, apply_accepted_artifact}
use isabelle_repl.Orchestrator.Resume.{resume, gate_or_review}

-- The rounds of `while … and steps < max_steps`.
abbrev pub steps_of : ℤ → ℕ
steps_of (pos n) = n
steps_of (negsuc n) = 0

-- The rule id of the decision that the loop makes up for an escalated task.
abbrev escalated_decision : PolicyDecision
escalated_decision = record {
  kind = requires_review;
  scope = artifact_acceptance;
  triggered_rule_ids = "task_escalated_requires_review" ∷ [];
}

abbrev pub escalated_response_kinds : List InterventionResponseKind
escalated_response_kinds =
    provide_replacement_artifact ∷ request_committed_placeholder ∷ request_stop ∷ []

abbrev pub new_task_spec : String → LocalizedTask → TaskSpec
new_task_spec theory_run_id localized = record {
  theory_run_id = theory_run_id;
  task = localized;
  block_contract = or_default (contract_for_block_kind localized.block_kind) goal_closed;
  max_actions = 20;
  max_validations = 10;
  timeout_ms = 30000;
}

abbrev pub is_artifact : TaskResult → Bool
is_artifact r = is_some r.artifact_kind && truthy_text r.artifact_text

module _ {W : Type 0} (parts : Parts W) where
  -- `localizer.next_task` works on the run's own snapshot.
  abbrev pub take_next : Action (Orchestrator W) (Option LocalizedTask)
  take_next s =
      let (r, snapshot, world) = parts.next_task parts.theory_run_id s.snapshot s.world in
      (settle r, record s { snapshot = snapshot; world = world })

  abbrev pub finalize_mode : RunMode → Action (Orchestrator W) (Unit {0})
  finalize_mode target_boundary = set_terminal completed target_boundary_completed
  finalize_mode theory_wide = set_terminal finished theory_wide_finished

  -- `_finalize_without_next_task`
  unfoldable pub finalize_without_next_task : Action (Orchestrator W) (Unit {0})
  finalize_without_next_task = finalize_mode parts.run_mode

  -- The engine's call, with the event and the record of its result.
  unfoldable pub run_task : LocalizedTask → TaskSpec → Action (Orchestrator W) TaskResult
  run_task localized spec = do
    emit parts (some localized.task_id) (task_selected localized.failure_kind localized.block_kind)
    r ← call (parts.run_task spec)
    set_result r
    emit parts (some r.task_id) (task_result r.outcome r.artifact_kind)
    record_task parts r spec.task.block_kind localized.metadata.drift_fallback_reason
    pure r

  unfoldable pub stop_failed : String → Action (Orchestrator W) Bool
  stop_failed task_id = do
    record_continuation parts task_id (record { kind = stop; reason = task_failed })
    set_terminal stopped stopped_task_failed
    pure false

module _ {W : Type 0} (parts : Parts W) (fuel : ℕ) where
  unfoldable pub review_escalated : TaskSpec → Action (Orchestrator W) Bool
  review_escalated spec = do
    enter_review parts spec escalated_decision task_escalated_requires_review
        escalated_response_kinds
    if parts.auto_resolve_review
        then (do
          resumed ← resume parts fuel
          terminal ← gets (λ s. is_terminal_state s.state)
          pure (if resumed && terminal then false else true))
        else pure false

  unfoldable pub accept_result : TaskSpec → Action (Orchestrator W) Bool
  accept_result spec = do
    allowed ← gate_or_review parts fuel spec
    awaiting ← gets (λ s. is_awaiting s.state)
    if awaiting
        then pure false
        else if allowed
        then (do
          apply_accepted_artifact parts (resume parts fuel) spec
          gets (λ s. if is_terminal_state s.state then false else true))
        else pure true

  -- What the loop does with a result, by its outcome.
  unfoldable pub handle_result : TaskSpec → TaskResult → TaskOutcome → Action (Orchestrator W) Bool
  handle_result spec r failed = stop_failed parts r.task_id
  handle_result spec r escalated = review_escalated spec
  handle_result spec r _ = if is_artifact r then accept_result spec else pure true

  unfoldable pub handle_task : Option LocalizedTask → Action (Orchestrator W) Bool
  handle_task none = do finalize_without_next_task parts; pure false
  handle_task (some localized) = do
    r ← run_task parts localized (new_task_spec parts.theory_run_id localized)
    handle_result (new_task_spec parts.theory_run_id localized) r r.outcome

  -- One round of the `while` loop.
  unfoldable pub round : Action (Orchestrator W) Bool
  round = do localized ← take_next parts; handle_task localized

  abbrev pub proceed :
      Action (Orchestrator W) (Unit {0}) → Bool → Action (Orchestrator W) (Unit {0})
  proceed rest true = rest
  proceed rest false = pure tt

  -- The loop with `steps` rounds left of `max_steps`.
  unfoldable pub loop : ℕ → Action (Orchestrator W) (Unit {0})
  loop zero = pure tt
  loop (suc steps) = do
    running ← gets (λ s. is_active s.state)
    go_on ← if running then round else pure false
    proceed (loop steps) go_on

  -- The event and the record at the end of `run_until_terminal`.
  unfoldable pub conclude : ℤ → Action (Orchestrator W) RunState
  conclude max_steps = do
    s ← gets (λ s. s)
    if is_terminal_state s.state
        then (do emit parts none (run_finished s.state s.terminal_reason); record_terminal parts)
        else emit parts none (run_paused s.state max_steps)
    pure s.state

  unfoldable pub run_until_terminal : ℤ → Action (Orchestrator W) RunState
  run_until_terminal max_steps = do
    emit parts none (run_started max_steps parts.run_mode parts.target_max_tasks)
    loop (steps_of max_steps)
    conclude max_steps
