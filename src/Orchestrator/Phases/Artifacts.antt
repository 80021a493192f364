-- ===== src/Orchestrator/Phases/Artifacts.antt =====
-- The state machine across the application of an artifact and the request of a placeholder.
use isabelle_repl.Base.{
  ◌≡◌, refl, inl, inr, String, Bool, true, false, Option, none, some, List, ◌∷◌, contains,
  string_eq, Eq, Action, gets, ◌>>=◌, Runs, Runs-pure, Runs-if, Runs-bind, Runs-after, Runs-weaken,
  Bool-cases, Keeps-gets, Keeps-modify, Option-cases, arith, Steady, keeps_rules,
}
use isabelle_repl.Model.{
  RunState, TaskSpec, TaskResult, ArtifactKind, PolicyDecision, PolicyDecisionKind, allow, deny,
  requires_review,
}
use isabelle_repl.Orchestrator.State.{Parts, Orchestrator}
use isabelle_repl.Orchestrator.Contexts.{command_line_for_task}
use isabelle_repl.Orchestrator.Reviews.{
  integrate_artifact, choose_continuation, apply_new_artifact, apply_artifact_of,
  apply_accepted_artifact, set_placeholder, placeholder_reviewed, placeholder_decided,
  review_placeholder, placeholder_for, resolve_placeholder_request,
}
use isabelle_repl.Orchestrator.Integration.{integrate_artifact-some, integrate_artifact-none}
use isabelle_repl.Orchestrator.Phases.{Phase, phase, IsGood, IsActive, IsReady}
use isabelle_repl.Orchestrator.Phases.Steady.{call-Steady, note_policy-Steady}
use isabelle_repl.Orchestrator.Phases.Reviews.{IsSafe, enter_review-Runs, choose_continuation-Runs}

contains-first :
    {A : Type 0} ⦃e : Eq A⦄ (x y : A) (xs : List A) → y ≡ x → contains (x ∷ xs) y ≡ true
contains-first x y xs h = ground arith

contains-later :
    {A : Type 0} ⦃e : Eq A⦄ (x y : A) (xs : List A)
    → contains xs y ≡ true
    → contains (x ∷ xs) y ≡ true
contains-later x y xs h = ground arith

-- The result at hand is that of the current task.
abbrev IsOf : TaskResult → Phase → Type 0
IsOf r v = v.task_id ≡ r.task_id

module _ {W : Type 0} (parts : Parts W) (from : RunState) (kept : Bool) where
  integrate_artifact-Runs :
      (spec : TaskSpec) (r : TaskResult) (kind : ArtifactKind) (text : String)
      → Runs phase
          (IsGood parts from kept)
          (λ v. IsActive v × IsOf r v)
          (λ _ v. IsActive v × (v.done ≡ true))
          (integrate_artifact parts spec r kind text)
  integrate_artifact-Runs spec r kind text = record {
    at = λ s good pre. elim (Option-cases (command_line_for_task spec)) [
      | inl e ↦ rw (integrate_artifact-none parts spec r kind text s e) (good, λ a e. cc)
      | inr (line, e) ↦
          let now =
            contains-first r.task_id s.current_result.task_id s.applied_artifact_task_ids pre.1 in
          rw (integrate_artifact-some parts spec r kind text s line e) (
            record {
              consistent = good.consistent;
              reached = good.reached;
              target = good.target;
              remains = λ _. now;
            },
            λ a e. (pre.0, now),
          )
    ];
  }

module _ {W : Type 0} (parts : Parts W) (from : RunState) (again : Action (Orchestrator W) Bool)
    (safe : IsSafe parts from again) where
  -- Once the artifact is applied, the task stays done.
  choose_continuation-done :
      (kept : Bool) (spec : TaskSpec) (r : TaskResult)
      → Runs phase
          (IsGood parts from kept)
          (λ v. IsActive v × (v.done ≡ true))
          (λ _. IsReady)
          (choose_continuation parts again spec r)
  choose_continuation-done kept spec r = record {
    at = λ s good pre.
        let (good', r) =
          (choose_continuation-Runs parts from true again safe spec r).at s
            (record {
              consistent = good.consistent;
              reached = good.reached;
              target = good.target;
              remains = λ _. pre.1;
            })
            pre.0 in
        (
          record {
            consistent = good'.consistent;
            reached = good'.reached;
            target = good'.target;
            remains = λ _. good'.remains refl;
          },
          λ a e. inr (good'.remains refl),
        );
  }

  apply_artifact_of-Runs :
      (kept : Bool) (spec : TaskSpec) (r : TaskResult) (kind : Option ArtifactKind)
      (text : Option String)
      → Runs phase
          (IsGood parts from kept)
          (λ v. IsReady v × IsOf r v)
          (λ _. IsReady)
          (apply_artifact_of parts again spec r kind text)
  unfolding apply_artifact_of apply_new_artifact ◌>>=◌
  apply_artifact_of-Runs kept spec r none text = Runs-pure tt (λ v c p. p.0)
  apply_artifact_of-Runs kept spec r (some kind) none = Runs-pure tt (λ v c p. p.0)
  apply_artifact_of-Runs kept spec r (some kind) (some text) = record {
    at = λ s good pre. elim (Bool-cases (contains s.applied_artifact_task_ids r.task_id)) [
      | inl old ↦ rw old (good, λ a e. pre.0)
      | inr new ↦ elim pre.0 [
        | inl is_active ↦ rw new (
            (Runs-bind (integrate_artifact-Runs parts from kept spec r kind text)
                (λ _. choose_continuation-done kept spec r)).at
              s good (is_active, pre.1))
        | inr applied ↦ absurd (cc (new, applied, pre.1))
      ]
    ];
  }

  pub apply_accepted_artifact-Runs :
      (kept : Bool) (spec : TaskSpec)
      → Runs phase
          (IsGood parts from kept)
          IsReady
          (λ _. IsReady)
          (apply_accepted_artifact parts again spec)
  unfolding apply_accepted_artifact ◌>>=◌ gets
  apply_accepted_artifact-Runs kept spec = record {
    at = λ s good ready.
        let r = s.current_result in
        (apply_artifact_of-Runs kept spec r r.artifact_kind r.artifact_text).at s good
          (ready, refl);
  }

  set_placeholder-Steady : Steady phase (set_placeholder parts again)
  unfolding set_placeholder
  set_placeholder-Steady v = Keeps-modify _ (λ s h. h)

  placeholder_reviewed-Runs :
      (kept : Bool) (original : Option ArtifactKind) (accepted : Bool)
      → Runs phase
          (IsGood parts from kept)
          (λ v. accepted ≡ true → IsReady v)
          (λ answer v. answer ≡ true → IsReady v)
          (placeholder_reviewed parts again original accepted)
  unfolding placeholder_reviewed
  placeholder_reviewed-Runs kept original accepted =
      Runs-after (λ v. Keeps-gets _)
        λ awaiting.
          Runs-after (λ v. search (keeps_rules, Keeps-modify)) λ _. Runs-pure accepted (λ v c p. p)

  placeholder_decided-Runs :
      (kept : Bool) (spec : TaskSpec) (r : TaskResult) (d : PolicyDecision)
      (kind : PolicyDecisionKind)
      → Runs phase
          (IsGood parts from kept)
          IsActive
          (λ answer v. answer ≡ true → IsReady v)
          (placeholder_decided parts again spec r d kind)
  unfolding placeholder_decided review_placeholder
  placeholder_decided-Runs kept spec r d deny = Runs-pure false (λ v c p e. cc)
  placeholder_decided-Runs kept spec r d allow =
      Runs-after set_placeholder-Steady λ _. Runs-pure true (λ v c p e. inl p)
  placeholder_decided-Runs kept spec r d requires_review = Runs-after set_placeholder-Steady λ _.
      Runs-bind (enter_review-Runs parts from kept spec d _ _ (λ r. tt)) λ _.
        Runs-if parts.auto_resolve_review
          (λ _.
            Runs-bind (Runs-weaken (safe.accepts kept) (λ v c p. p tt) (λ a v c p. p))
              (placeholder_reviewed-Runs kept r.artifact_kind))
          (λ _. Runs-pure false (λ v c p e. cc))

  placeholder_for-Runs :
      (kept : Bool) (spec : TaskSpec) (r : TaskResult) (text : Option String)
      → Runs phase
          (IsGood parts from kept)
          IsActive
          (λ answer v. answer ≡ true → IsReady v)
          (placeholder_for parts again spec r text)
  unfolding placeholder_for
  placeholder_for-Runs kept spec r none = Runs-pure false (λ v c p e. cc)
  placeholder_for-Runs kept spec r (some text) = Runs-after (call-Steady parts _) λ d.
      Runs-after (note_policy-Steady parts _ _ _) λ _. placeholder_decided-Runs kept spec r d d.kind

  pub resolve_placeholder_request-Runs :
      (kept : Bool) (spec : TaskSpec)
      → Runs phase
          (IsGood parts from kept)
          IsActive
          (λ answer v. answer ≡ true → IsReady v)
          (resolve_placeholder_request parts again spec)
  unfolding resolve_placeholder_request
  resolve_placeholder_request-Runs kept spec =
      Runs-after (λ v. Keeps-gets _) λ r. placeholder_for-Runs kept spec r r.artifact_text
