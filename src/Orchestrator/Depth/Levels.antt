-- ===== src/Orchestrator/Depth/Levels.antt =====
-- The responses to a review and the three levels of reviews: with fuel for two calls of
-- `resume_from_review` inside it, any call of it ends.
use isabelle_repl.Base.{
  ℕ, suc, ◌≡◌, ◌≢◌, refl, ◌⊎◌, String, truthy, Bool, true, false, Option, none, some, Action,
  out_of_fuel, Ends, Ends-pure, Ends-gets, Ends-if, Ends-modify, Ends-bind, Ends-bind_at,
  ends_rules, pure, if◌then◌else◌, inl, inr, contains, string_eq,
}
use isabelle_repl.Model.{
  ReviewReason, policy_requires_review, task_escalated_requires_review,
  placeholder_policy_requires_review, continuation_policy_requires_review, PendingReview, TaskSpec,
  TaskResult, ArtifactKind, InterventionResponse, InterventionResponseKind, InterventionContext,
  approve_current_artifact, reject_current_artifact, provide_replacement_artifact,
  request_committed_placeholder, request_stop, PolicyDecision, PolicyDecisionKind, allow, deny,
  requires_review, response_kind_eq,
}
use isabelle_repl.Hooks.{guarded-ne-placeholder, validate_intervention_response}
use isabelle_repl.Orchestrator.State.{Parts, Orchestrator, is_awaiting}
use isabelle_repl.Orchestrator.Contexts.{continuation_response_kinds, placeholder_response_kinds}
use isabelle_repl.Orchestrator.Reviews.{
  set_placeholder, placeholder_reviewed, review_placeholder, placeholder_decided, placeholder_for,
  resolve_placeholder_request,
}
use isabelle_repl.Orchestrator.Resume.{
  try_replacement, replacement_given, stop_by_review, unless_invalid, response_of,
  apply_review_response, after_accepted, given_response, resume_pending, resume_if, resume_body,
  resume, resume_from_review,
}
use isabelle_repl.Orchestrator.Depth.{
  emit-Ends, call-Ends, record_continuation-Ends, record_intervention-Ends, note_policy-Ends,
  finalize_accepted_continuation-Ends,
}
use isabelle_repl.Orchestrator.Depth.Continuations.{EndsIn, review-Ends, after_accepted-Ends}

module _ {W : Type 0} (parts : Parts W) where
  module _ (again : Action (Orchestrator W) Bool) where
    try_replacement-Ends :
        (spec : TaskSpec) (text : String) → Ends (try_replacement parts again spec text)
    unfolding try_replacement
    try_replacement-Ends spec text = search (ends_rules, call-Ends parts) depth 9

    replacement_given-Ends :
        (spec : TaskSpec) (text : Option String) → Ends (replacement_given parts again spec text)
    replacement_given-Ends spec none = Ends-pure false
    replacement_given-Ends spec (some text) =
        Ends-if (truthy text) _ _ (try_replacement-Ends spec text) (Ends-pure false)

    stop_by_review-Ends : (task_id : String) → Ends (stop_by_review parts again task_id)
    unfolding stop_by_review
    stop_by_review-Ends task_id = search (ends_rules, record_continuation-Ends parts)

    unless_invalid-Ends :
        (invalid : Option String) {m : Action (Orchestrator W) Bool}
        → Ends m
        → Ends (unless_invalid parts again invalid m)
    unless_invalid-Ends none em = em
    unless_invalid-Ends (some reason) em = Ends-pure false

    -- A response ends if the request for a placeholder does, or if it is no such request.
    response_of-Ends :
        (spec : TaskSpec) (response : InterventionResponse) (invalid : Option String)
        (kind : InterventionResponseKind)
        → (kind ≢ request_committed_placeholder)
          ⊎ Ends (resolve_placeholder_request parts again spec)
        → Ends (response_of parts again spec response invalid kind)
    response_of-Ends spec response invalid request_stop h = record {
      at = λ s. (stop_by_review-Ends s.current_result.task_id).at s;
    }
    response_of-Ends spec response invalid approve_current_artifact h =
        unless_invalid-Ends invalid (Ends-pure true)
    response_of-Ends spec response invalid reject_current_artifact h =
        unless_invalid-Ends invalid (Ends-pure false)
    response_of-Ends spec response invalid provide_replacement_artifact h =
        unless_invalid-Ends invalid (replacement_given-Ends spec response.replacement_artifact_text)
    response_of-Ends spec response invalid request_committed_placeholder (inl ne) = absurd (ne refl)
    response_of-Ends spec response invalid request_committed_placeholder (inr e) =
        unless_invalid-Ends invalid e

    given_response-Ends :
        (response : Option InterventionResponse) (context : InterventionContext)
        → Ends (given_response parts again response context)
    given_response-Ends none context = call-Ends parts (parts.handle context)
    given_response-Ends (some response) context = Ends-pure response

    -- A pending review ends if the request for a placeholder ends, where its context allows one, and
    -- what an accepted response leads to ends.
    resume_pending-Ends :
        (response : Option InterventionResponse) (pending : PendingReview)
        → (contains pending.context.allowed_response_kinds request_committed_placeholder ≡ false)
          ⊎ Ends (resolve_placeholder_request parts again pending.task_spec)
        → Ends (after_accepted parts again pending pending.context.reason_code)
        → Ends (resume_pending parts again response pending)
    unfolding resume_pending apply_review_response
    resume_pending-Ends response pending h a =
        Ends-bind _ _ (given_response-Ends response pending.context) λ raw.
          Ends-bind _ _ (Ends-gets _) λ task_id. Ends-bind _ _ (emit-Ends parts _ _) λ _.
            Ends-bind _ _ (record_intervention-Ends parts _ _ _ _ _) λ _.
              Ends-bind _ _ (Ends-modify _) λ _.
                Ends-bind _ _
                  (response_of-Ends pending.task_spec
                    (validate_intervention_response parts.iterate pending.context raw).response _ _
                    (asks raw h))
                  (λ accepted.
                    Ends-bind _ _ (Ends-if accepted _ _ a (Ends-pure tt)) (λ _. Ends-pure accepted))
      where
        asks :
            (raw : InterventionResponse)
            → (contains pending.context.allowed_response_kinds request_committed_placeholder
                ≡ false)
              ⊎ Ends (resolve_placeholder_request parts again pending.task_spec)
            → ((validate_intervention_response parts.iterate pending.context raw).response.kind
                ≢ request_committed_placeholder)
              ⊎ Ends (resolve_placeholder_request parts again pending.task_spec)
        asks raw (inl no_request) =
            inl (guarded-ne-placeholder parts.iterate pending.context raw no_request)
        asks raw (inr e) = inr e

    -- What follows an accepted continuation needs no other review.
    after_continuation-Ends :
        (pending : PendingReview) (reason : ReviewReason)
        → reason ≡ continuation_policy_requires_review
        → Ends (after_accepted parts again pending reason)
    unfolding after_accepted
    after_continuation-Ends pending continuation_policy_requires_review e =
        search (ends_rules, finalize_accepted_continuation-Ends parts)
    after_continuation-Ends pending policy_requires_review e = cc
    after_continuation-Ends pending placeholder_policy_requires_review e = cc
    after_continuation-Ends pending task_escalated_requires_review e = cc

    resume_if-Ends :
        (response : Option InterventionResponse) (awaiting : Bool) (option : Option PendingReview)
        (pending : PendingReview) (s : Orchestrator W)
        → option ≡ some pending
        → (resume_pending parts again response pending s).0 ≢ out_of_fuel
        → (resume_if parts again awaiting response option s).0 ≢ out_of_fuel
    resume_if-Ends response true option pending s e h = rw e h
    resume_if-Ends response false option pending s e h = (Ends-pure false).at s

    -- The placeholder's own review ends wherever `again` does.
    module _
        (one : EndsIn parts placeholder_policy_requires_review placeholder_response_kinds
          again) where
      placeholder_reviewed-Ends :
          (kind : Option ArtifactKind) (accepted : Bool)
          → Ends (placeholder_reviewed parts again kind accepted)
      unfolding placeholder_reviewed
      placeholder_reviewed-Ends kind accepted = search ends_rules depth 9

      review_placeholder-at :
          (kind : Option ArtifactKind) (s : Orchestrator W)
          → (again s).0 ≢ out_of_fuel
          → (review_placeholder parts again kind s).0 ≢ out_of_fuel
      unfolding review_placeholder
      review_placeholder-at kind s h =
          Ends-bind_at again (placeholder_reviewed parts again kind) s h
            (λ accepted. (placeholder_reviewed-Ends kind accepted).at (again s).1)

      review_if-at :
          (auto : Bool) (kind : Option ArtifactKind) (s : Orchestrator W)
          → (again s).0 ≢ out_of_fuel
          → ((if auto then review_placeholder parts again kind else pure false) s).0 ≢ out_of_fuel
      review_if-at true kind s h = review_placeholder-at kind s h
      review_if-at false kind s h = (Ends-pure false).at s

      placeholder_decided-Ends :
          (spec : TaskSpec) (r : TaskResult) (d : PolicyDecision) (kind : PolicyDecisionKind)
          → Ends (placeholder_decided parts again spec r d kind)
      unfolding placeholder_decided set_placeholder
      placeholder_decided-Ends spec r d allow = search ends_rules
      placeholder_decided-Ends spec r d deny = Ends-pure false
      placeholder_decided-Ends spec r d requires_review = Ends-bind _ _ (Ends-modify _) (λ _.
          review-Ends parts again spec d _ _ _
            (λ s a. review_if-at parts.auto_resolve_review r.artifact_kind s (one s a)))

      placeholder_for-Ends :
          (spec : TaskSpec) (r : TaskResult) (text : Option String)
          → Ends (placeholder_for parts again spec r text)
      unfolding placeholder_for
      placeholder_for-Ends spec r none = Ends-pure false
      placeholder_for-Ends spec r (some text) =
          search (ends_rules, call-Ends parts, note_policy-Ends parts, placeholder_decided-Ends)

      resolve_placeholder_request-Ends :
          (spec : TaskSpec) → Ends (resolve_placeholder_request parts again spec)
      unfolding resolve_placeholder_request
      resolve_placeholder_request-Ends spec = search (ends_rules, placeholder_for-Ends)

module _ {W : Type 0} (parts : Parts W) where
  -- A review of a continuation asks for no other review.
  resume-EndsIn_continuation :
      (fuel : ℕ)
      → EndsIn parts continuation_policy_requires_review continuation_response_kinds
          (resume parts (suc fuel))
  unfolding resume resume_body response_kind_eq
  resume-EndsIn_continuation fuel s (p, e, reason, kinds) =
      resume_if-Ends parts (resume parts fuel) none (is_awaiting s.state) s.pending_review p s e (
        (resume_pending-Ends parts (resume parts fuel) none p (inl (rw kinds refl))
            (after_continuation-Ends parts (resume parts fuel) p _ reason)).at
          s)

  -- A review of a placeholder may lead to one of a continuation.
  resume-EndsIn_placeholder :
      (fuel : ℕ)
      → EndsIn parts placeholder_policy_requires_review placeholder_response_kinds
          (resume parts (suc (suc fuel)))
  unfolding resume resume_body response_kind_eq
  resume-EndsIn_placeholder fuel s (p, e, reason, kinds) =
      resume_if-Ends parts (resume parts (suc fuel)) none (is_awaiting s.state) s.pending_review p s
        e
        ((resume_pending-Ends parts (resume parts (suc fuel)) none p (inl (rw kinds refl)) (
            after_accepted-Ends parts (resume parts (suc fuel)) (resume-EndsIn_continuation fuel) p
              p.context.reason_code)).at
          s)

  -- With fuel for two levels inside it, any review ends.
  pub resume_from_review-Ends :
      (fuel : ℕ) (response : Option InterventionResponse)
      → Ends (resume_from_review parts (suc (suc fuel)) response)
  unfolding resume_from_review resume_body
  resume_from_review-Ends fuel response = record {
    at = λ s. pending_ends response (is_awaiting s.state) s.pending_review s;
  }
    where
      again : Action (Orchestrator W) Bool
      again = resume parts (suc (suc fuel))

      pending_ends :
          (response : Option InterventionResponse) (awaiting : Bool)
          (pending : Option PendingReview) (s : Orchestrator W)
          → (resume_if parts again awaiting response pending s).0 ≢ out_of_fuel
      pending_ends response false pending s = (Ends-pure false).at s
      pending_ends response true none s = (Ends-pure false).at s
      pending_ends response true (some p) s =
          (resume_pending-Ends parts again response p
              (inr (
                resolve_placeholder_request-Ends parts again (resume-EndsIn_placeholder fuel)
                  p.task_spec))
              (after_accepted-Ends parts again (resume-EndsIn_continuation (suc fuel)) p
                p.context.reason_code)).at
            s
