-- ===== src/Orchestrator/Resume.antt =====
-- `resume_from_review` and `_apply_review_response`, and the gate that may enter a review.
use isabelle_repl.Base.{
  ℕ, zero, suc, String, truthy, Bool, true, false, Option, none, some, [], ◌∷◌, ◌++◌, Action, pure,
  gets, modify, exhausted, ◌>>=◌, ◌>>◌, if◌then◌else◌,
}
use isabelle_repl.Model.{
  active, stopped, repair, stop, ValidationStatus, passed, PolicyDecisionKind, allow, deny,
  requires_review, InterventionResponseKind, approve_current_artifact, reject_current_artifact,
  provide_replacement_artifact, request_committed_placeholder, request_stop, TaskSpec,
  task_artifact_evaluation, ReviewReason, policy_requires_review,
  continuation_policy_requires_review, PolicyDecision, InterventionContext, InterventionResponse,
  PendingReview, hook_requested_stop, stopped_by_review_stop,
}
use isabelle_repl.Hooks.{validate_intervention_response}
use isabelle_repl.Orchestrator.State.{
  Parts, Orchestrator, review_resolved, is_awaiting, call, set_terminal, emit,
}
use isabelle_repl.Orchestrator.Recording.{note_policy, record_intervention, record_continuation}
use isabelle_repl.Orchestrator.Contexts.{
  continuation_for_result, result_context, all_response_kinds,
}
use isabelle_repl.Orchestrator.Reviews.{
  enter_review, auto_resolve, finalize_accepted_continuation, apply_accepted_artifact,
  resolve_placeholder_request,
}

abbrev pub is_passed : ValidationStatus → Bool
is_passed passed = true
is_passed _ = false

module _ {W : Type 0} (parts : Parts W) (again : Action (Orchestrator W) Bool) where
  -- The result is validated anew with the text of the reviewer.
  unfoldable pub try_replacement : TaskSpec → String → Action (Orchestrator W) Bool
  try_replacement spec text = do
    validation ← call (parts.validate_candidate spec text)
    modify (λ s. record s {
      current_result = record (s.current_result) {
        validation = some validation;
        selected_generator = some "review_injected";
        attempted_candidates = s.current_result.attempted_candidates ++ text ∷ [];
      };
    })
    if is_passed validation.status
        then (do
          modify (λ s. record s {
            current_result = record (s.current_result) {
              artifact_text = some text;
              artifact_kind = some repair;
            };
          })
          pure true)
        else pure false

  abbrev pub replacement_given : TaskSpec → Option String → Action (Orchestrator W) Bool
  replacement_given spec none = pure false
  replacement_given spec (some text) = if truthy text then try_replacement spec text else pure false

  -- The branches of `_apply_review_response` behind the tests for a stop and for an invalid response.
  abbrev pub valid_response :
      TaskSpec → InterventionResponse → InterventionResponseKind → Action (Orchestrator W) Bool
  valid_response spec response reject_current_artifact = pure false
  valid_response spec response approve_current_artifact = pure true
  valid_response spec response request_committed_placeholder =
      resolve_placeholder_request parts again spec
  valid_response spec response provide_replacement_artifact =
      replacement_given spec response.replacement_artifact_text
  valid_response spec response request_stop = pure false

  unfoldable pub stop_by_review : String → Action (Orchestrator W) Bool
  stop_by_review task_id = do
    record_continuation parts task_id (record { kind = stop; reason = hook_requested_stop })
    set_terminal stopped stopped_by_review_stop
    pure false

  abbrev pub unless_invalid :
      Option String → Action (Orchestrator W) Bool → Action (Orchestrator W) Bool
  unless_invalid none m = m
  unless_invalid (some reason) m = pure false

  abbrev pub response_of :
      TaskSpec
      → InterventionResponse
      → Option String
      → InterventionResponseKind
      → Action (Orchestrator W) Bool
  response_of spec response invalid request_stop s = stop_by_review s.current_result.task_id s
  response_of spec response invalid kind s =
      unless_invalid invalid (valid_response spec response kind) s

  unfoldable pub apply_review_response :
      TaskSpec → InterventionResponse → Option String → Action (Orchestrator W) Bool
  apply_review_response spec response invalid = response_of spec response invalid response.kind

  -- What an accepted response leads to, by the reason of its review.
  unfoldable pub after_accepted : PendingReview → ReviewReason → Action (Orchestrator W) (Unit {0})
  after_accepted pending continuation_policy_requires_review = do
    r ← gets (λ s. s.current_result)
    finalize_accepted_continuation parts r.task_id (continuation_for_result r)
  after_accepted pending _ = apply_accepted_artifact parts again pending.task_spec

  abbrev pub given_response :
      Option InterventionResponse
      → InterventionContext
      → Action (Orchestrator W) InterventionResponse
  given_response none context = call (parts.handle context)
  given_response (some response) context = pure response

  unfoldable pub resume_pending :
      Option InterventionResponse → PendingReview → Action (Orchestrator W) Bool
  resume_pending response pending = do
    raw ← given_response response pending.context
    let guard = validate_intervention_response parts.iterate pending.context raw
    task_id ← gets (λ s. s.current_result.task_id)
    emit parts (some task_id) (review_resolved guard.response.kind guard.invalid_response_reason)
    record_intervention parts task_id pending.context.reason_code
        pending.context.allowed_response_kinds (some guard.response.kind)
        guard.invalid_response_reason
    modify (λ s. record s { pending_review = none; state = active })
    accepted ← apply_review_response pending.task_spec guard.response guard.invalid_response_reason
    if accepted then after_accepted pending pending.context.reason_code else pure tt
    pure accepted

  -- `resume_from_review` outside a review returns False.
  abbrev pub resume_if :
      Bool → Option InterventionResponse → Option PendingReview → Action (Orchestrator W) Bool
  resume_if true response (some pending) = resume_pending response pending
  resume_if _ response _ = pure false

  unfoldable pub resume_body : Option InterventionResponse → Action (Orchestrator W) Bool
  resume_body response s = resume_if (is_awaiting s.state) response s.pending_review s

module _ {W : Type 0} (parts : Parts W) where
  -- `resume_from_review()` with fuel for the calls inside it.
  unfoldable pub resume : ℕ → Action (Orchestrator W) Bool
  resume zero = exhausted
  resume (suc fuel) = resume_body parts (resume fuel) none

  -- `resume_from_review(response)`
  unfoldable pub resume_from_review : ℕ → Option InterventionResponse → Action (Orchestrator W) Bool
  resume_from_review fuel response = resume_body parts (resume fuel) response

  unfoldable pub artifact_decided :
      ℕ → TaskSpec → PolicyDecision → PolicyDecisionKind → Action (Orchestrator W) Bool
  artifact_decided fuel spec d deny = pure false
  artifact_decided fuel spec d allow = pure true
  artifact_decided fuel spec d requires_review = do
    enter_review parts spec d policy_requires_review all_response_kinds
    auto_resolve parts (resume fuel)
    pure false

  -- `_gate_or_review`
  unfoldable pub gate_or_review : ℕ → TaskSpec → Action (Orchestrator W) Bool
  gate_or_review fuel spec = do
    r ← gets (λ s. s.current_result)
    d ← call (parts.decide (result_context parts spec r none))
    note_policy parts r.task_id d task_artifact_evaluation
    artifact_decided fuel spec d d.kind
