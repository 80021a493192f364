-- ===== src/Orchestrator/Depth/Continuations.antt =====
-- What follows an accepted artifact, up to the review of its continuation, ends where that review
-- does.
use isabelle_repl.Base.{
  ◌≢◌, ◌>>◌, String, Bool, true, false, Option, none, some, List, Action, out_of_fuel, Ends,
  Ends-pure, Ends-bind_at, ends_rules, pure, Bool-cases, inl, inr, string_eq,
}
use isabelle_repl.Model.{
  ReviewReason, continuation_policy_requires_review, PendingReview, TaskSpec, TaskResult,
  ArtifactKind, InterventionResponseKind, PolicyDecision, PolicyDecisionKind, allow, deny,
  requires_review, ContinuationSelection, response_kind_eq,
}
use isabelle_repl.Orchestrator.State.{Parts, Orchestrator}
use isabelle_repl.Orchestrator.Contexts.{continuation_response_kinds}
use isabelle_repl.Orchestrator.Reviews.{
  enter_review, auto_resolve, continuation_decided, gate_continuation, choose_continuation,
  apply_new_artifact, apply_artifact_of, apply_accepted_artifact,
}
use isabelle_repl.Orchestrator.Resume.{after_accepted}
use isabelle_repl.Orchestrator.Depth.{
  Awaits, call-Ends, record_continuation-Ends, note_policy-Ends, enter_review-Ends,
  enter_review-Awaits, finalize_accepted_continuation-Ends, integrate_artifact-Ends,
}

module _ {W : Type 0} (parts : Parts W) where
  -- `again` ends wherever a review with this reason and these kinds is pending.
  abbrev pub EndsIn :
      ReviewReason → List InterventionResponseKind → Action (Orchestrator W) Bool → Type 0
  EndsIn reason allowed again =
      (s : Orchestrator W) → Awaits reason allowed s → (again s).0 ≢ out_of_fuel

  module _ (again : Action (Orchestrator W) Bool) where
    pub review-Ends :
        {B : Type 0} (spec : TaskSpec) (d : PolicyDecision) (reason : ReviewReason)
        (allowed : List InterventionResponseKind) (rest : Action (Orchestrator W) B)
        → ((s : Orchestrator W) → Awaits reason allowed s → (rest s).0 ≢ out_of_fuel)
        → Ends (enter_review parts spec d reason allowed >> rest)
    review-Ends spec d reason allowed rest h = record {
      at = λ s.
          Ends-bind_at (enter_review parts spec d reason allowed) (λ _. rest) s
            ((enter_review-Ends parts spec d reason allowed).at s)
            (λ _. h _ (enter_review-Awaits parts spec d reason allowed s));
    }

    auto_resolve-EndsIn :
        (s : Orchestrator W)
        → (again s).0 ≢ out_of_fuel
        → (auto_resolve parts again s).0 ≢ out_of_fuel
    unfolding auto_resolve
    auto_resolve-EndsIn s h = elim (Bool-cases parts.auto_resolve_review) [
      | inl e ↦ rw (e, auto_resolve) h
      | inr e ↦ rw (e, auto_resolve) ((Ends-pure false).at s)
    ]

    module _
        (one : EndsIn continuation_policy_requires_review continuation_response_kinds again) where
      continuation_decided-Ends :
          (spec : TaskSpec) (r : TaskResult) (d : PolicyDecision) (kind : PolicyDecisionKind)
          → Ends (continuation_decided parts again spec r d kind)
      unfolding continuation_decided
      continuation_decided-Ends spec r d allow = Ends-pure true
      continuation_decided-Ends spec r d deny = search (ends_rules, record_continuation-Ends parts)
      continuation_decided-Ends spec r d requires_review = review-Ends spec d _ _ _ (λ s a.
          Ends-bind_at (auto_resolve parts again) (λ _. pure false) s
            (auto_resolve-EndsIn s (one s a)) (λ _. (Ends-pure false).at _))

      gate_continuation-Ends :
          (spec : TaskSpec) (c : ContinuationSelection)
          → Ends (gate_continuation parts again spec c)
      unfolding gate_continuation
      gate_continuation-Ends spec c =
          search (ends_rules, call-Ends parts, note_policy-Ends parts, continuation_decided-Ends)

      choose_continuation-Ends :
          (spec : TaskSpec) (r : TaskResult) → Ends (choose_continuation parts again spec r)
      unfolding choose_continuation
      choose_continuation-Ends spec r =
          search (ends_rules, gate_continuation-Ends, finalize_accepted_continuation-Ends parts)
            depth 9

      apply_artifact_of-Ends :
          (spec : TaskSpec) (r : TaskResult) (kind : Option ArtifactKind) (text : Option String)
          → Ends (apply_artifact_of parts again spec r kind text)
      unfolding apply_artifact_of apply_new_artifact
      apply_artifact_of-Ends spec r none text = Ends-pure tt
      apply_artifact_of-Ends spec r (some kind) none = Ends-pure tt
      apply_artifact_of-Ends spec r (some kind) (some text) =
          search (ends_rules, integrate_artifact-Ends parts, choose_continuation-Ends) depth 9

      pub apply_accepted_artifact-Ends :
          (spec : TaskSpec) → Ends (apply_accepted_artifact parts again spec)
      unfolding apply_accepted_artifact
      apply_accepted_artifact-Ends spec = search (ends_rules, apply_artifact_of-Ends)

      pub after_accepted-Ends :
          (pending : PendingReview) (reason : ReviewReason)
          → Ends (after_accepted parts again pending reason)
      unfolding after_accepted
      after_accepted-Ends pending continuation_policy_requires_review =
          search (ends_rules, finalize_accepted_continuation-Ends parts)
      after_accepted-Ends pending _ = apply_accepted_artifact-Ends pending.task_spec
