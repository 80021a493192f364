-- ===== src/Orchestrator/Phases/Resume.antt =====
-- The state machine across `resume_from_review` and the gate.
use isabelle_repl.Base.{
  ◌≡◌, ◌≢◌, refl, inl, String, truthy, Bool, true, false, Option, none, some, Action, Runs,
  Runs-pure, Runs-if, Runs-bind, Runs-after, Runs-weaken, Keeps-gets, Keeps-modify,
}
use isabelle_repl.Model.{
  RunState, stopped, ReviewReason, policy_requires_review, task_escalated_requires_review,
  placeholder_policy_requires_review, continuation_policy_requires_review, PendingReview,
  stopped_by_review_stop, TaskSpec, InterventionResponse, InterventionResponseKind,
  approve_current_artifact, reject_current_artifact, provide_replacement_artifact,
  request_committed_placeholder, request_stop, response_kind_eq,
}
use isabelle_repl.Orchestrator.State.{Parts, Orchestrator}
use isabelle_repl.Orchestrator.Resume.{
  is_passed, try_replacement, replacement_given, valid_response, stop_by_review, unless_invalid,
  response_of, after_accepted,
}
use isabelle_repl.Orchestrator.Phases.{
  to_stopped, Phase, phase, IsGood, IsActive, IsReady, IsOrdinaryReason,
}
use isabelle_repl.Orchestrator.Phases.Steady.{call-Steady, record_continuation-Steady}
use isabelle_repl.Orchestrator.Phases.Reviews.{
  IsSafe, set_terminal-Runs, finalize_accepted_continuation-Runs,
}
use isabelle_repl.Orchestrator.Phases.Artifacts.{
  apply_accepted_artifact-Runs, resolve_placeholder_request-Runs,
}

-- What a response to a review leads to: an accepted one leaves the run ready, and active unless a
-- placeholder was asked for.
abbrev IsAnswered : InterventionResponseKind → Bool → Phase → Type 0
IsAnswered kind accepted v =
    accepted ≡ true → IsReady v × (kind ≢ request_committed_placeholder → IsActive v)

module _ {W : Type 0} (parts : Parts W) (from : RunState) (again : Action (Orchestrator W) Bool)
    (safe : IsSafe parts from again) (kept : Bool) where
  try_replacement-Runs :
      (spec : TaskSpec) (text : String)
      → Runs phase
          (IsGood parts from kept)
          IsActive
          (λ answer. IsActive)
          (try_replacement parts again spec text)
  unfolding try_replacement
  try_replacement-Runs spec text = Runs-after (call-Steady parts _) λ validation.
      Runs-after (λ v. Keeps-modify _ (λ s h. h))
        λ _.
          Runs-if (is_passed validation.status)
            (λ _. Runs-after (λ v. Keeps-modify _ (λ s h. h)) λ _. Runs-pure true (λ v c p. p))
            (λ _. Runs-pure false (λ v c p. p))

  replacement_given-Runs :
      (spec : TaskSpec) (text : Option String)
      → Runs phase
          (IsGood parts from kept)
          IsActive
          (λ answer. IsActive)
          (replacement_given parts again spec text)
  replacement_given-Runs spec none = Runs-pure false (λ v c p. p)
  replacement_given-Runs spec (some text) =
      Runs-if (truthy text) (λ _. try_replacement-Runs spec text)
        (λ _. Runs-pure false (λ v c p. p))

  answered :
      {m : Action (Orchestrator W) Bool} (kind : InterventionResponseKind)
      → Runs phase (IsGood parts from kept) IsActive (λ answer. IsActive) m
      → Runs phase (IsGood parts from kept) IsActive (IsAnswered kind) m
  answered kind run = Runs-weaken run (λ v c p. p) (λ a v c p e. (inl p, λ _. p))

  valid_response-Runs :
      (spec : TaskSpec) (response : InterventionResponse) (kind : InterventionResponseKind)
      → Runs phase
          (IsGood parts from kept)
          IsActive
          (IsAnswered kind)
          (valid_response parts again spec response kind)
  valid_response-Runs spec response reject_current_artifact =
      answered _ (Runs-pure false (λ v c p. p))
  valid_response-Runs spec response approve_current_artifact =
      answered _ (Runs-pure true (λ v c p. p))
  valid_response-Runs spec response request_stop = answered _ (Runs-pure false (λ v c p. p))
  valid_response-Runs spec response provide_replacement_artifact =
      answered _ (replacement_given-Runs spec response.replacement_artifact_text)
  valid_response-Runs spec response request_committed_placeholder =
      Runs-weaken (resolve_placeholder_request-Runs parts from again safe kept spec) (λ v c p. p)
        (λ a v c p e. (p e, λ other. absurd (other refl)))

  unless_invalid-Runs :
      (kind : InterventionResponseKind) (invalid : Option String) {m : Action (Orchestrator W) Bool}
      → Runs phase (IsGood parts from kept) IsActive (IsAnswered kind) m
      → Runs phase
          (IsGood parts from kept)
          IsActive
          (IsAnswered kind)
          (unless_invalid parts again invalid m)
  unless_invalid-Runs kind none run = run
  unless_invalid-Runs kind (some reason) run = Runs-pure false (λ v c p e. cc)

  stop_by_review-Runs :
      (task_id : String)
      → Runs phase
          (IsGood parts from kept)
          IsActive
          (IsAnswered request_stop)
          (stop_by_review parts again task_id)
  unfolding stop_by_review
  stop_by_review-Runs task_id = Runs-after (record_continuation-Steady parts _ _) λ _.
      Runs-bind (set_terminal-Runs parts from kept stopped stopped_by_review_stop to_stopped tt)
        λ _. Runs-pure false (λ v c p e. cc)

  pub response_of-Runs :
      (spec : TaskSpec) (response : InterventionResponse) (invalid : Option String)
      (kind : InterventionResponseKind)
      → Runs phase
          (IsGood parts from kept)
          IsActive
          (IsAnswered kind)
          (response_of parts again spec response invalid kind)
  response_of-Runs spec response invalid request_stop = record {
    at = λ s. (stop_by_review-Runs s.current_result.task_id).at s;
  }
  response_of-Runs spec response invalid approve_current_artifact = record {
    at = (unless_invalid-Runs _ invalid (valid_response-Runs spec response _)).at;
  }
  response_of-Runs spec response invalid reject_current_artifact = record {
    at = (unless_invalid-Runs _ invalid (valid_response-Runs spec response _)).at;
  }
  response_of-Runs spec response invalid provide_replacement_artifact = record {
    at = (unless_invalid-Runs _ invalid (valid_response-Runs spec response _)).at;
  }
  response_of-Runs spec response invalid request_committed_placeholder = record {
    at = (unless_invalid-Runs _ invalid (valid_response-Runs spec response _)).at;
  }

  -- After an accepted response to an ordinary review the run is ready.
  pub after_accepted-Runs :
      (pending : PendingReview) (kind : InterventionResponseKind) (reason : ReviewReason)
      → (¬ IsOrdinaryReason reason → kind ≢ request_committed_placeholder)
      → Runs phase
          (IsGood parts from kept)
          (λ v. IsReady v × (kind ≢ request_committed_placeholder → IsActive v))
          (λ _ v. IsOrdinaryReason reason → IsReady v)
          (after_accepted parts again pending reason)
  unfolding after_accepted
  after_accepted-Runs pending kind continuation_policy_requires_review other =
      Runs-after (λ v. Keeps-gets _)
        λ r.
          Runs-weaken (finalize_accepted_continuation-Runs parts from kept _ _)
            (λ v c p. p.1 (other (λ h. h))) (λ a v c p h. absurd h)
  after_accepted-Runs pending kind policy_requires_review other =
      Runs-weaken (apply_accepted_artifact-Runs parts from again safe kept pending.task_spec)
        (λ v c p. p.0) (λ a v c p h. p)
  after_accepted-Runs pending kind task_escalated_requires_review other =
      Runs-weaken (apply_accepted_artifact-Runs parts from again safe kept pending.task_spec)
        (λ v c p. p.0) (λ a v c p h. p)
  after_accepted-Runs pending kind placeholder_policy_requires_review other =
      Runs-weaken (apply_accepted_artifact-Runs parts from again safe kept pending.task_spec)
        (λ v c p. p.0) (λ a v c p h. p)
