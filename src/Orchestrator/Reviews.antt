-- ===== src/Orchestrator/Reviews.antt =====
-- Entering a review, gating a continuation, applying an artifact and asking for a placeholder. These
-- methods call one another through `resume_from_review`; each takes that call as its argument `again`,
-- and Orchestrator/Resume.antt ties the knot.
use isabelle_repl.Base.{
  ◌+◌, String, Bool, true, false, not, ◌&&◌, Option, none, some, List, ◌∷◌, Action, pure, gets,
  modify, ◌>>=◌, ◌>>◌, if◌then◌else◌, contains, string_eq,
}
use isabelle_repl.Model.{
  awaiting_review, stopped, completed, ArtifactKind, committed_placeholder, stop,
  PolicyDecisionKind, allow, deny, requires_review, InterventionResponseKind, TaskSpec, TaskResult,
  continuation_gate, review_placeholder_request, ReviewReason, placeholder_policy_requires_review,
  continuation_policy_requires_review, PolicyDecision, ContinuationSelection, continuation_denied,
  stopped_continuation_denied, target_boundary_completed,
}
use isabelle_repl.Snapshot.{apply_artifact}
use isabelle_repl.Orchestrator.State.{
  Parts, Orchestrator, review_entered, artifact_applied, is_awaiting, call, on_snapshot,
  set_terminal, emit, target_boundary_reached,
}
use isabelle_repl.Orchestrator.Recording.{
  record_artifact, note_policy, record_intervention, record_continuation, record_provenance,
}
use isabelle_repl.Orchestrator.Contexts.{
  continuation_for_result, requires_continuation_gate, command_line_for_task,
  placeholder_response_kinds, continuation_response_kinds, review_context, result_context,
  placeholder_context,
}

module _ {W : Type 0} (parts : Parts W) where
  unfoldable pub enter_review :
      TaskSpec
      → PolicyDecision
      → ReviewReason
      → List InterventionResponseKind
      → Action (Orchestrator W) (Unit {0})
  enter_review spec d reason allowed = do
    r ← gets (λ s. s.current_result)
    modify (λ s. record s {
      pending_review =
          some (record { task_spec = spec; context = review_context r d reason allowed });
      state = awaiting_review;
    })
    emit parts (some r.task_id) review_entered
    record_intervention parts r.task_id reason allowed none none
    pure tt

  -- The provenance record of an accepted artifact, with the count of these.
  unfoldable pub count_accepted : String → Action (Orchestrator W) (Unit {0})
  count_accepted task_id = do
    record_provenance parts task_id
    modify (λ s. record s { accepted_artifact_count = s.accepted_artifact_count + 1 })

  unfoldable pub finalize_accepted_continuation :
      String → ContinuationSelection → Action (Orchestrator W) (Unit {0})
  finalize_accepted_continuation task_id selection = do
    record_continuation parts task_id selection
    count_accepted task_id
    count ← gets (λ s. s.accepted_artifact_count)
    if target_boundary_reached parts count
        then set_terminal completed target_boundary_completed
        else pure tt

  -- The part of `_apply_accepted_artifact` that patches the snapshot and records the artifact.
  unfoldable pub integrate_artifact :
      TaskSpec → TaskResult → ArtifactKind → String → Action (Orchestrator W) (Unit {0})
  integrate_artifact spec r kind text = do
    on_snapshot (
        apply_artifact kind text (some r.task_id) (command_line_for_task spec)
          (some spec.task.block_text))
    emit parts (some r.task_id) (artifact_applied kind text)
    record_artifact parts r
    modify (λ s. record s { applied_artifact_task_ids = r.task_id ∷ s.applied_artifact_task_ids })

module _ {W : Type 0} (parts : Parts W) (again : Action (Orchestrator W) Bool) where
  -- `if self.auto_resolve_review: self.resume_from_review()`
  unfoldable pub auto_resolve : Action (Orchestrator W) Bool
  auto_resolve = if parts.auto_resolve_review then again else pure false

  -- The branches of `_gate_continuation` behind the policy's decision.
  unfoldable pub continuation_decided :
      TaskSpec → TaskResult → PolicyDecision → PolicyDecisionKind → Action (Orchestrator W) Bool
  continuation_decided spec r d deny = do
    record_continuation parts r.task_id (record { kind = stop; reason = continuation_denied })
    set_terminal stopped stopped_continuation_denied
    pure false
  continuation_decided spec r d requires_review = do
    enter_review parts spec d continuation_policy_requires_review continuation_response_kinds
    auto_resolve
    pure false
  continuation_decided spec r d allow = pure true

  unfoldable pub gate_continuation : TaskSpec → ContinuationSelection → Action (Orchestrator W) Bool
  gate_continuation spec selection = do
    r ← gets (λ s. s.current_result)
    d ← call (parts.decide (result_context parts spec r (some selection.kind)))
    note_policy parts r.task_id d continuation_gate
    continuation_decided spec r d d.kind

  -- The part of `_apply_accepted_artifact` that chooses the continuation.
  unfoldable pub choose_continuation : TaskSpec → TaskResult → Action (Orchestrator W) (Unit {0})
  choose_continuation spec r = do
    go_on ←
        if requires_continuation_gate r (continuation_for_result r)
        then gate_continuation spec (continuation_for_result r)
        else pure true
    if go_on
        then finalize_accepted_continuation parts r.task_id (continuation_for_result r)
        else pure tt

  unfoldable pub apply_new_artifact :
      TaskSpec → TaskResult → ArtifactKind → String → Action (Orchestrator W) (Unit {0})
  apply_new_artifact spec r kind text = do
    integrate_artifact parts spec r kind text
    choose_continuation spec r

  unfoldable pub apply_artifact_of :
      TaskSpec
      → TaskResult
      → Option ArtifactKind
      → Option String
      → Action (Orchestrator W) (Unit {0})
  apply_artifact_of spec r (some kind) (some text) = do
    applied ← gets (λ s. contains s.applied_artifact_task_ids r.task_id)
    if applied then pure tt else apply_new_artifact spec r kind text
  apply_artifact_of spec r _ _ = pure tt

  unfoldable pub apply_accepted_artifact : TaskSpec → Action (Orchestrator W) (Unit {0})
  apply_accepted_artifact spec = do
    r ← gets (λ s. s.current_result)
    apply_artifact_of spec r r.artifact_kind r.artifact_text

  -- After the review of a placeholder: a rejected one gives the result its old kind back.
  unfoldable pub placeholder_reviewed : Option ArtifactKind → Bool → Action (Orchestrator W) Bool
  placeholder_reviewed original accepted = do
    awaiting ← gets (λ s. is_awaiting s.state)
    if not accepted && not awaiting
        then modify (λ s. record s {
          current_result = record (s.current_result) { artifact_kind = original };
        })
        else pure tt
    pure accepted

  unfoldable pub set_placeholder : Action (Orchestrator W) (Unit {0})
  set_placeholder = modify (λ s. record s {
    current_result = record (s.current_result) { artifact_kind = some committed_placeholder };
  })

  unfoldable pub review_placeholder : Option ArtifactKind → Action (Orchestrator W) Bool
  review_placeholder original = do accepted ← again; placeholder_reviewed original accepted

  -- The branches of `_resolve_placeholder_request` behind the policy's decision.
  unfoldable pub placeholder_decided :
      TaskSpec → TaskResult → PolicyDecision → PolicyDecisionKind → Action (Orchestrator W) Bool
  placeholder_decided spec r d deny = pure false
  placeholder_decided spec r d requires_review = do
    set_placeholder
    enter_review parts spec d placeholder_policy_requires_review placeholder_response_kinds
    if parts.auto_resolve_review then review_placeholder r.artifact_kind else pure false
  placeholder_decided spec r d allow = do set_placeholder; pure true

  unfoldable pub placeholder_for :
      TaskSpec → TaskResult → Option String → Action (Orchestrator W) Bool
  placeholder_for spec r none = pure false
  placeholder_for spec r (some text) = do
    d ← call (parts.decide (placeholder_context parts spec r))
    note_policy parts r.task_id d review_placeholder_request
    placeholder_decided spec r d d.kind

  unfoldable pub resolve_placeholder_request : TaskSpec → Action (Orchestrator W) Bool
  resolve_placeholder_request spec = do
    r ← gets (λ s. s.current_result)
    placeholder_for spec r r.artifact_text
