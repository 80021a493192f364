-- ===== src/Orchestrator/Phases/Pending.antt =====
-- The state machine across a pending review and the calls of `resume_from_review` inside one another.
use isabelle_repl.Base.{
  ℕ, zero, suc, ◌≡◌, refl, Bool, true, false, Option, none, some, Action, Runs, Runs-pure, Runs-if,
  Runs-bind, Runs-after, Runs-weaken, Runs-fact, Runs-modify, Runs-exhausted, Keeps-gets,
  Keeps-pure, Steady, return,
}
use isabelle_repl.Model.{
  RunState, ReviewReason, policy_requires_review, task_escalated_requires_review,
  placeholder_policy_requires_review, continuation_policy_requires_review, PendingReview, TaskSpec,
  PolicyDecision, PolicyDecisionKind, allow, deny, requires_review, InterventionResponse,
  InterventionContext, response_kind_eq,
}
use isabelle_repl.Hooks.{guarded, guarded-ne-placeholder}
use isabelle_repl.Orchestrator.State.{Parts, Orchestrator, is_awaiting}
use isabelle_repl.Orchestrator.Resume.{
  apply_review_response, given_response, resume_pending, resume_if, resume_body, resume,
  artifact_decided, gate_or_review,
}
use isabelle_repl.Orchestrator.Phases.{
  OffersFor, IsReview, Phase, phase, IsGood, IsActive, IsReady, IsOrdinaryReason, IsOrdinaryPending,
  reopen,
}
use isabelle_repl.Orchestrator.Phases.Steady.{
  emit-Steady, call-Steady, record_intervention-Steady, note_policy-Steady,
}
use isabelle_repl.Orchestrator.Phases.Reviews.{IsSafe, enter_review-Runs, auto_resolve-Runs}
use isabelle_repl.Orchestrator.Phases.Resume.{response_of-Runs, after_accepted-Runs}

not_offered :
    (reason : ReviewReason) (offered : Bool)
    → OffersFor reason offered
    → ¬ IsOrdinaryReason reason
    → offered ≡ false
not_offered continuation_policy_requires_review offered h n = h
not_offered policy_requires_review offered h n = absurd (n tt)
not_offered task_escalated_requires_review offered h n = absurd (n tt)
not_offered placeholder_policy_requires_review offered h n = absurd (n tt)

-- A review is pending, and it is this one.
abbrev IsPending : PendingReview → Phase → Type 0
IsPending p v = (is_awaiting v.state ≡ true) × (v.pending_review ≡ some p)

-- An accepted response to an ordinary review leaves the run ready.
abbrev IsAccepted : PendingReview → Bool → Phase → Type 0
IsAccepted p accepted v = accepted ≡ true → IsOrdinaryReason p.context.reason_code → IsReady v

module _ {W : Type 0} (parts : Parts W) (from : RunState) (again : Action (Orchestrator W) Bool)
    (safe : IsSafe parts from again) (kept : Bool) where
  given_response-Steady :
      (response : Option InterventionResponse) (context : InterventionContext)
      → Steady phase (given_response parts again response context)
  given_response-Steady none context v = call-Steady parts _ v
  given_response-Steady (some response) context v = Keeps-pure response

  resume_pending-Runs :
      (response : Option InterventionResponse) (p : PendingReview)
      → Runs phase
          (IsGood parts from kept)
          (IsPending p)
          (IsAccepted p)
          (resume_pending parts again response p)
  unfolding resume_pending apply_review_response
  resume_pending-Runs response p = Runs-after (given_response-Steady response p.context) λ raw.
      Runs-after (λ v. Keeps-gets _)
        λ task_id. Runs-after (emit-Steady parts _ _) λ _.
          Runs-after (record_intervention-Steady parts _ _ _ _ _) λ _.
            Runs-bind {Q = λ _ v. IsReview p × IsActive v}
              (Runs-modify _ (λ s good pending.
                let (review, good') = reopen (phase s) p good pending.0 pending.1 in
                (good', (review, refl))))
              λ _. Runs-fact λ review.
                Runs-bind
                  (response_of-Runs parts from again safe kept p.task_spec
                    (guarded parts.iterate p.context raw).response _ _)
                  λ accepted.
                    Runs-bind {Q = λ _. IsAccepted p accepted}
                      (Runs-if accepted
                        (λ yes_sir.
                          Runs-weaken
                            (after_accepted-Runs parts from again safe kept p _
                              p.context.reason_code
                              (λ n.
                                guarded-ne-placeholder parts.iterate p.context raw
                                  (not_offered p.context.reason_code _ review n)))
                            (λ v c h. h yes_sir) (λ a v c h e. h))
                        (λ refused. Runs-pure tt (λ v c h e. cc)))
                      λ _. Runs-pure accepted (λ v c h. h)

  resume_if-Runs :
      (awaiting : Bool) (response : Option InterventionResponse) (pending : Option PendingReview)
      → Runs phase
          (IsGood parts from kept)
          (λ v. (is_awaiting v.state ≡ awaiting) × (v.pending_review ≡ pending))
          (λ accepted v. IsOrdinaryPending pending → accepted ≡ true → IsReady v)
          (resume_if parts again awaiting response pending)
  resume_if-Runs true response (some p) =
      Runs-weaken (resume_pending-Runs response p) (λ v c h. h) (λ a v c h ordinary e. h e ordinary)
  resume_if-Runs true response none = Runs-pure false (λ v c p ordinary e. cc)
  resume_if-Runs false response pending = Runs-pure false (λ v c p ordinary e. cc)

  resume_body-at :
      (response : Option InterventionResponse) (s : Orchestrator W)
      → IsGood parts from kept (phase s)
      → IsGood parts from kept (phase (resume_body parts again response s).1)
        × ((accepted : Bool)
            → (resume_body parts again response s).0 ≡ return accepted
            → IsOrdinaryPending s.pending_review
            → accepted ≡ true
            → IsReady (phase (resume_body parts again response s).1))
  unfolding resume_body
  resume_body-at response s good =
      (resume_if-Runs (is_awaiting s.state) response s.pending_review).at s good (refl, refl)

module _ {W : Type 0} (parts : Parts W) (from : RunState) where
  pub resume_body-IsSafe :
      (again : Action (Orchestrator W) Bool) (response : Option InterventionResponse)
      → IsSafe parts from again
      → IsSafe parts from (resume_body parts again response)
  resume_body-IsSafe again response safe = record {
    keeps = λ kept. record {
      at = λ s good any. ((resume_body-at parts from again safe kept response s good).0, λ a e. tt);
    };
    accepts = λ kept. record {
      at = λ s good ordinary.
          let (good', ready) = resume_body-at parts from again safe kept response s good in
          (good', λ a e. ready a e ordinary);
    };
  }

  pub resume-IsSafe : (fuel : ℕ) → IsSafe parts from (resume parts fuel)
  unfolding resume
  resume-IsSafe zero = record {
    keeps = λ kept. Runs-exhausted _ _;
    accepts = λ kept. Runs-exhausted _ _;
  }
  resume-IsSafe (suc fuel) = resume_body-IsSafe (resume parts fuel) none (resume-IsSafe fuel)

  -- The gate answers yes only in an active run.
  pub gate_or_review-Runs :
      (fuel : ℕ) (spec : TaskSpec)
      → Runs phase
          (IsGood parts from false)
          IsActive
          (λ allowed v. allowed ≡ true → IsActive v)
          (gate_or_review parts fuel spec)
  unfolding gate_or_review artifact_decided
  gate_or_review-Runs fuel spec =
      Runs-after (λ v. Keeps-gets _)
        λ r.
          Runs-after (call-Steady parts _)
            λ d. Runs-after (note_policy-Steady parts _ _ _) λ _. decided d d.kind
    where
      decided :
          (d : PolicyDecision) (kind : PolicyDecisionKind)
          → Runs phase
              (IsGood parts from false)
              IsActive
              (λ allowed v. allowed ≡ true → IsActive v)
              (artifact_decided parts fuel spec d kind)
      decided d allow = Runs-pure true (λ v c p e. p)
      decided d deny = Runs-pure false (λ v c p e. cc)
      decided d requires_review =
          Runs-bind (enter_review-Runs parts from false spec d _ _ (λ r. tt)) λ _.
            Runs-bind
              (Runs-weaken (auto_resolve-Runs parts from false _ (resume-IsSafe fuel)) (λ v c p. tt)
                (λ a v c p. p))
              λ _. Runs-pure false (λ v c p e. cc)
