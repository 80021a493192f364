-- ===== src/Orchestrator/Depth.antt =====
-- The calls of `resume_from_review` inside one another end: a review of an artifact may lead to one of
-- a placeholder, and either to one of a continuation, which leads to no other.
pub mod Continuations
pub mod Levels
pub mod Runs
use isabelle_repl.Base.{
  ℕ, zero, suc, ◌≡◌, ◌≢◌, refl, sym, ap, ◌∙◌, String, truthy, Bool, true, false, Option, none, some,
  List, [], ◌∷◌, arith, Action, Attempt, returned, raised, Outcome, return, out_of_fuel, settle,
  Ends, Ends-pure, Ends-gets, Ends-if, Ends-modify, Ends-bind, Ends-bind_at, ends_rules, pure,
  ◌>>=◌, if◌then◌else◌, Bool-cases, inl, inr, contains, string_eq, Option-cases,
}
use isabelle_repl.Model.{
  ReviewReason, policy_requires_review, task_escalated_requires_review,
  placeholder_policy_requires_review, continuation_policy_requires_review, PendingReview, TaskSpec,
  TaskResult, ArtifactKind, InterventionResponse, InterventionResponseKind, InterventionContext,
  approve_current_artifact, reject_current_artifact, provide_replacement_artifact,
  request_committed_placeholder, request_stop, PolicyDecision, PolicyDecisionKind, PolicyReason,
  allow, deny, requires_review, ContinuationSelection, RecordPayload, RunState, TerminalReason,
  response_kind_eq,
}
use isabelle_repl.Records.{create}
use isabelle_repl.Hooks.{guarded-ne-placeholder, validate_intervention_response}
use isabelle_repl.Snapshot.{apply_artifact}
use isabelle_repl.Orchestrator.State.{Parts, Orchestrator, EventPayload, is_awaiting, emit, call}
use isabelle_repl.Orchestrator.Recording.{
  append_record, record_policy, note_policy, record_intervention, record_continuation,
  record_provenance,
}
use isabelle_repl.Orchestrator.Contexts.{
  command_line_for_task, continuation_response_kinds, placeholder_response_kinds,
  command_line_for_task,
}
use isabelle_repl.Orchestrator.Reviews.{
  enter_review, count_accepted, finalize_accepted_continuation, integrate_artifact, auto_resolve,
  continuation_decided, gate_continuation, choose_continuation, apply_new_artifact,
  apply_artifact_of, apply_accepted_artifact, set_placeholder, placeholder_reviewed,
  review_placeholder, placeholder_decided, placeholder_for, resolve_placeholder_request,
}
use isabelle_repl.Orchestrator.Resume.{
  try_replacement, replacement_given, valid_response, stop_by_review, unless_invalid, response_of,
  apply_review_response, after_accepted, given_response, resume_pending, resume_if, resume_body,
  resume, resume_from_review,
}
use isabelle_repl.Orchestrator.Integration.{integrate_artifact-some, integrate_artifact-none}

-- A review with this reason and these kinds is pending.
abbrev pub Awaits :
    {W : Type 0} → ReviewReason → List InterventionResponseKind → Orchestrator W → Type 0
Awaits reason allowed s =
    (p : PendingReview) × (s.pending_review ≡ some p)
    × (p.context.reason_code ≡ reason)
    × (p.context.allowed_response_kinds ≡ allowed)

module _ {W : Type 0} (parts : Parts W) where
  emit-Ends : (task_id : Option String) (payload : EventPayload) → Ends (emit parts task_id payload)
  unfolding emit
  emit-Ends task_id payload = record {
    at = λ s h. elim (Bool-cases parts.has_logger) [
      | inl logs ↦ ground arith
      | inr silent ↦ ground arith
    ];
  }

  pub append_record-Ends :
      (task_id : Option String) (payload : RecordPayload)
      → Ends (append_record parts task_id payload)
  unfolding append_record create
  append_record-Ends task_id payload = record { at = λ s h. cc }

  settle-ne : {A : Type 0} (r : Attempt A) → settle r ≢ out_of_fuel
  settle-ne (returned a) h = cc
  settle-ne (raised e) h = cc

  pub call-Ends : {A : Type 0} (f : W → Attempt A × W) → Ends (call f)
  call-Ends f = record { at = λ s. settle-ne (f s.world).0 }

  record_continuation-Ends :
      (task_id : String) (c : ContinuationSelection) → Ends (record_continuation parts task_id c)
  unfolding record_continuation
  record_continuation-Ends task_id c = search (ends_rules, emit-Ends, append_record-Ends)

  record_intervention-Ends :
      (task_id : String) (reason : ReviewReason) (allowed : List InterventionResponseKind)
      (kind : Option InterventionResponseKind) (invalid : Option String)
      → Ends (record_intervention parts task_id reason allowed kind invalid)
  unfolding record_intervention
  record_intervention-Ends task_id reason allowed kind invalid = append_record-Ends _ _

  note_policy-Ends :
      (task_id : String) (d : PolicyDecision) (reason : PolicyReason)
      → Ends (note_policy parts task_id d reason)
  unfolding note_policy record_policy
  note_policy-Ends task_id d reason = search (ends_rules, emit-Ends, append_record-Ends)

  enter_review-Ends :
      (spec : TaskSpec) (d : PolicyDecision) (reason : ReviewReason)
      (allowed : List InterventionResponseKind)
      → Ends (enter_review parts spec d reason allowed)
  unfolding enter_review
  enter_review-Ends spec d reason allowed =
      search (ends_rules, emit-Ends, record_intervention-Ends) depth 9

  pub enter_review-Awaits :
      (spec : TaskSpec) (d : PolicyDecision) (reason : ReviewReason)
      (allowed : List InterventionResponseKind) (s : Orchestrator W)
      → Awaits reason allowed (enter_review parts spec d reason allowed s).1
  unfolding enter_review emit record_intervention append_record create ◌>>=◌
  enter_review-Awaits spec d reason allowed s = elim (Bool-cases parts.has_logger) [
    | inl logs ↦ rw logs (_, refl, refl, refl)
    | inr silent ↦ rw silent (_, refl, refl, refl)
  ]

  finalize_accepted_continuation-Ends :
      (task_id : String) (c : ContinuationSelection)
      → Ends (finalize_accepted_continuation parts task_id c)
  unfolding finalize_accepted_continuation count_accepted record_provenance
  finalize_accepted_continuation-Ends task_id c =
      search (ends_rules, record_continuation-Ends, append_record-Ends) depth 9

  integrate_artifact-Ends :
      (spec : TaskSpec) (r : TaskResult) (kind : ArtifactKind) (text : String)
      → Ends (integrate_artifact parts spec r kind text)
  integrate_artifact-Ends spec r kind text = record {
    at = λ s h. elim (Option-cases (command_line_for_task spec)) [
      | inl e ↦ cc (integrate_artifact-none parts spec r kind text s e)
      | inr (line, e) ↦ cc (integrate_artifact-some parts spec r kind text s line e)
    ];
  }
