-- ===== src/Orchestrator/Phases/Reviews.antt =====
-- The state machine across the methods of Reviews.antt.
use isabelle_repl.Base.{
  ◌+◌, ◌>>◌, ◌≡◌, refl, inl, inr, String, Bool, true, false, none, some, List, string_eq, Action,
  pure, gets, ◌>>=◌, if◌then◌else◌, Runs, Runs-pure, Runs-if, Runs-bind, Runs-after, Runs-weaken,
  Runs-modify, Bool-cases, Keeps-gets,
}
use isabelle_repl.Model.{
  RunState, active, awaiting_review, stopped, completed, ReviewReason, TerminalReason,
  stopped_continuation_denied, target_boundary_completed, TaskSpec, TaskResult, PolicyDecision,
  PolicyDecisionKind, allow, deny, requires_review, ContinuationSelection, InterventionResponseKind,
  response_kind_eq,
}
use isabelle_repl.Orchestrator.State.{Parts, Orchestrator, set_terminal, target_boundary_reached}
use isabelle_repl.Records.{create}
use isabelle_repl.Orchestrator.Recording.{append_record, record_provenance}
use isabelle_repl.Orchestrator.Contexts.{
  requires_continuation_gate, review_context, continuation_for_result,
}
use isabelle_repl.Orchestrator.Reviews.{
  enter_review, count_accepted, auto_resolve, finalize_accepted_continuation, continuation_decided,
  gate_continuation, choose_continuation,
}
use isabelle_repl.Orchestrator.Phases.{
  Transition, to_review, to_stopped, to_completed, IsPhase, IsReview, Phase, phase, IsGood,
  IsActive, IsReady, IsOrdinary, IsOrdinaryReason, Anything, Whatever, move,
}
use isabelle_repl.Orchestrator.Phases.Steady.{
  emit-Steady, call-Steady, record_continuation-Steady, record_intervention-Steady,
  note_policy-Steady,
}

-- What `resume_from_review` promises: it keeps a run good, and when it accepts an artifact the run is
-- ready for it or has applied it.
pub record IsSafe {W : Type 0} (parts : Parts W) (from : RunState)
    (again : Action (Orchestrator W) Bool) : Type 0 where
  pub keeps : (kept : Bool) → Runs phase (IsGood parts from kept) Anything Whatever again
  pub accepts :
      (kept : Bool)
      → Runs phase
          (IsGood parts from kept)
          IsOrdinary
          (λ accepted v. accepted ≡ true → IsReady v)
          again

module _ {W : Type 0} (parts : Parts W) (from : RunState) (kept : Bool) where
  abbrev Good : Phase → Type 0
  Good = IsGood parts from kept

  pub enter_review-Runs :
      (spec : TaskSpec) (d : PolicyDecision) (reason : ReviewReason)
      (allowed : List InterventionResponseKind)
      → ((r : TaskResult)
          → IsReview (record { task_spec = spec; context = review_context r d reason allowed }))
      → Runs phase Good IsActive
          (λ _ v. IsOrdinaryReason reason → IsOrdinary v)
          (enter_review parts spec d reason allowed)
  unfolding enter_review
  enter_review-Runs spec d reason allowed fits =
      Runs-after (λ v. Keeps-gets _)
        λ r.
          Runs-bind {Q = λ _ v. IsOrdinaryReason reason → IsOrdinary v}
            (Runs-modify _ (λ s good is_active. (
              move (phase s) awaiting_review _ s.terminal_reason good is_active to_review
                  (λ p t. rw t (fits r)),
              λ h. h,
            )))
            (λ _. Runs-after (emit-Steady parts _ _) λ _.
              Runs-after (record_intervention-Steady parts _ _ _ _ _)
                λ _. Runs-pure tt (λ v c p. p))

  pub set_terminal-Runs :
      (st : RunState) (reason : TerminalReason)
      → Transition active st
      → (IsPhase st none (some reason))
      → Runs phase Good IsActive Whatever (set_terminal {W = W} st reason)
  set_terminal-Runs st reason t fits = Runs-modify _ (λ s good is_active.
      (move (phase s) st s.pending_review (some reason) good is_active t (λ p r. rw p fits), tt))

  -- One more artifact is accepted; the run is completed if that reaches the target.
  finalize-counted :
      (task_id : String)
      → Runs phase Good IsActive Whatever (do
        count_accepted parts task_id
        count ← gets (λ s. s.accepted_artifact_count)
        if target_boundary_reached parts count
            then set_terminal completed target_boundary_completed
            else pure tt)
  unfolding count_accepted record_provenance append_record create ◌>>=◌
  finalize-counted task_id = record {
    at = λ s good is_active.
        elim (Bool-cases (target_boundary_reached parts (s.accepted_artifact_count + 1))) [
          | inl yes_now ↦ rw yes_now (
            (let moved =
                  move (phase s) completed s.pending_review (some target_boundary_completed) good
                    is_active to_completed (λ p r. rw p tt) in
                record {
                  consistent = moved.consistent;
                  reached = moved.reached;
                  target = λ e. refl;
                  remains = moved.remains;
                }),
            λ a e. tt,
          )
          | inr not_yet ↦ rw not_yet (
            record {
              consistent = good.consistent;
              reached = good.reached;
              target = λ e. absurd (cc (e, not_yet));
              remains = good.remains;
            },
            λ a e. tt,
          )
        ];
  }

  pub finalize_accepted_continuation-Runs :
      (task_id : String) (c : ContinuationSelection)
      → Runs phase Good IsActive Whatever (finalize_accepted_continuation parts task_id c)
  unfolding finalize_accepted_continuation
  finalize_accepted_continuation-Runs task_id c =
      Runs-after (record_continuation-Steady parts _ _) λ _. finalize-counted task_id

  module _ (again : Action (Orchestrator W) Bool) (safe : IsSafe parts from again) where
    pub auto_resolve-Runs : Runs phase Good Anything Whatever (auto_resolve parts again)
    unfolding auto_resolve
    auto_resolve-Runs =
        Runs-if parts.auto_resolve_review (λ _. safe.keeps kept)
          (λ _. Runs-pure false (λ v c p. tt))

    continuation_decided-Runs :
        (spec : TaskSpec) (r : TaskResult) (d : PolicyDecision) (kind : PolicyDecisionKind)
        → Runs phase Good IsActive
            (λ go_on v. go_on ≡ true → IsActive v)
            (continuation_decided parts again spec r d kind)
    unfolding continuation_decided response_kind_eq
    continuation_decided-Runs spec r d allow = Runs-pure true (λ v c p e. p)
    continuation_decided-Runs spec r d deny = Runs-after (record_continuation-Steady parts _ _) λ _.
        Runs-bind (set_terminal-Runs stopped stopped_continuation_denied to_stopped tt)
          (λ _. Runs-pure false (λ v c p e. cc))
    continuation_decided-Runs spec r d requires_review =
        Runs-bind (enter_review-Runs spec d _ _ (λ r. refl)) λ _.
          Runs-bind (Runs-weaken auto_resolve-Runs (λ v c p. tt) (λ a v c p. p))
            λ _. Runs-pure false (λ v c p e. cc)

    gate_continuation-Runs :
        (spec : TaskSpec) (c : ContinuationSelection)
        → Runs phase Good IsActive
            (λ go_on v. go_on ≡ true → IsActive v)
            (gate_continuation parts again spec c)
    unfolding gate_continuation
    gate_continuation-Runs spec c =
        Runs-after (λ v. Keeps-gets _)
          λ r. Runs-after (call-Steady parts _) λ d.
            Runs-after (note_policy-Steady parts _ _ _)
              λ _. continuation_decided-Runs spec r d d.kind

    pub choose_continuation-Runs :
        (spec : TaskSpec) (r : TaskResult)
        → Runs phase Good IsActive Whatever (choose_continuation parts again spec r)
    unfolding choose_continuation
    choose_continuation-Runs spec r =
        Runs-bind {Q = λ go_on v. go_on ≡ true → IsActive v}
          (Runs-if (requires_continuation_gate r (continuation_for_result r))
            (λ _. gate_continuation-Runs spec _) (λ _. Runs-pure true (λ v c p e. p)))
          λ go_on.
            Runs-if go_on
              (λ e.
                Runs-weaken (finalize_accepted_continuation-Runs _ _) (λ v c p. p e) (λ a v c p. p))
              (λ e. Runs-pure tt (λ v c p. tt))
