-- ===== src/Orchestrator/Frame.antt =====
-- What an invariant of the records, the patches and the counts has to keep, so that every method of
-- the orchestrator keeps it.
mod Contract
pub mod Rounds
unfoldable pub use Contract.*
use isabelle_repl.Base.{
  ℕ, zero, suc, ◌+◌, ◌≡◌, refl, ◌≢◌, String, Bool, true, false, Option, none, some, List, [], ◌∷◌,
  ◌++◌, contains, string_eq, Keeps, Keeps-pure, Keeps-exhausted, Keeps-gets, Keeps-if, Keeps-bind,
  Keeps-modify, bind-at, bind-from, keeps_rules, Action, Attempt, gets, pure, ◌>>=◌, if◌then◌else◌,
  Outcome, Bool-cases, inl, inr,
}
use isabelle_repl.Model.{
  RunState, PendingReview, TerminalReason, TaskResult, TaskSpec, ArtifactKind, RecordPayload,
  run_metadata, task, artifact, policy_decision, intervention, continuation, provenance,
  patch_provenance, terminal, PolicyDecision, PolicyDecisionKind, allow, deny, requires_review,
  ContinuationSelection, ContinuationKind, stop, RunRecord, ReviewReason, PolicyReason,
  InterventionResponseKind, awaiting_review,
}
use isabelle_repl.Orchestrator.State.{
  Parts, Orchestrator, Event, EventPayload, emit, call, set_state, set_terminal, set_result,
  target_boundary_reached,
}
use isabelle_repl.Orchestrator.Recording.{
  append_record, summary, record_task, record_policy, note_policy, record_intervention,
  record_continuation, record_provenance, record_terminal, record_terminal_for,
}
use isabelle_repl.Records.{create}
use isabelle_repl.Orchestrator.Contexts.{requires_continuation_gate, continuation_for_result}
use isabelle_repl.Orchestrator.Reviews.{
  enter_review, auto_resolve, count_accepted, finalize_accepted_continuation, integrate_artifact,
  continuation_decided, gate_continuation, choose_continuation, apply_new_artifact,
  apply_artifact_of, apply_accepted_artifact, set_placeholder, placeholder_reviewed,
  placeholder_decided, review_placeholder, placeholder_for, resolve_placeholder_request,
}

module _ {W : Type 0} (parts : Parts W) {P : Orchestrator W → Type 0}
    (frame : IsFrame parts P) where
  open frame use {phase, result, event, outside, append, accept, integrate}

  emit-Keeps :
      (task_id : Option String) (payload : EventPayload) → Keeps P (emit parts task_id payload)
  unfolding emit
  emit-Keeps task_id payload = record {
    at = λ s h. elim (Bool-cases parts.has_logger) [
      | inl logs ↦ rw (logs, emit) (event s _ h)
      | inr silent ↦ rw (silent, emit) h
    ];
  }

  call-Keeps : {A : Type 0} (f : W → Attempt A × W) → Keeps P (call f)
  call-Keeps f = record { at = λ s h. outside s _ h }

  set_state-Keeps : (st : RunState) → Keeps P (set_state st)
  set_state-Keeps st = Keeps-modify _ (λ s h. phase s st s.pending_review s.terminal_reason h)

  set_terminal-Keeps : (st : RunState) (reason : TerminalReason) → Keeps P (set_terminal st reason)
  set_terminal-Keeps st reason = Keeps-modify _ (λ s h. phase s st s.pending_review (some reason) h)

  set_result-Keeps : (r : TaskResult) → Keeps P (set_result r)
  set_result-Keeps r = Keeps-modify _ (λ s h. result s r h)

  record_continuation-Keeps :
      (task_id : String) (c : ContinuationSelection) → Keeps P (record_continuation parts task_id c)
  unfolding record_continuation
  record_continuation-Keeps task_id c =
      Keeps-bind _ _ (emit-Keeps _ _) (λ _. append (some task_id) (continuation c) tt)

  record_intervention-Keeps :
      (task_id : String) (reason : ReviewReason) (allowed : List InterventionResponseKind)
      (kind : Option InterventionResponseKind) (invalid : Option String)
      → Keeps P (record_intervention parts task_id reason allowed kind invalid)
  unfolding record_intervention
  record_intervention-Keeps task_id reason allowed kind invalid =
      append (some task_id) (intervention reason allowed kind invalid) tt

  note_policy-Keeps :
      (task_id : String) (d : PolicyDecision) (reason : PolicyReason)
      → Keeps P (note_policy parts task_id d reason)
  unfolding note_policy record_policy
  note_policy-Keeps task_id d reason =
      Keeps-bind _ _ (emit-Keeps _ _)
        (λ _. append _ (policy_decision d.kind d.scope d.triggered_rule_ids (some reason)) tt)

  record_task-Keeps :
      (r : TaskResult) (block_kind : String) (drift : Option String)
      → Keeps P (record_task parts r block_kind drift)
  unfolding record_task
  record_task-Keeps r block_kind drift =
      Keeps-bind _ _ (Keeps-gets _)
        (λ m. append (some r.task_id) (task r.outcome block_kind drift (summary r m)) tt)

  enter_review-Keeps :
      (spec : TaskSpec) (d : PolicyDecision) (reason : ReviewReason)
      (allowed : List InterventionResponseKind)
      → Keeps P (enter_review parts spec d reason allowed)
  unfolding enter_review
  enter_review-Keeps spec d reason allowed = Keeps-bind _ _ (Keeps-gets _) λ r.
      Keeps-bind _ _ (Keeps-modify _ (λ s h. phase s awaiting_review _ s.terminal_reason h))
        (λ _. search (keeps_rules, emit-Keeps, record_intervention-Keeps))

  continuation_for_result-goes_on :
      (r : TaskResult) → is_stop (continuation_for_result r).kind ≡ false
  continuation_for_result-goes_on r = elim (Bool-cases r.requires_rerun) [
    | inl rerun ↦ rw rerun
    | inr go_on ↦ rw go_on
  ]

  record_continuation-IsContinued :
      (r : TaskResult) (s : Orchestrator W)
      → IsContinued r.task_id (record_continuation parts r.task_id (continuation_for_result r) s).1
  unfolding record_continuation emit append_record create ◌>>=◌
  record_continuation-IsContinued r s = elim (Bool-cases parts.has_logger) [
    | inl logs ↦ rw logs (record {
      before = s.records;
      chosen = _;
      selection = continuation_for_result r;
      is_last = refl;
      of_task = refl;
      selects = refl;
      goes_on = continuation_for_result-goes_on r;
    })
    | inr silent ↦ rw silent (record {
      before = s.records;
      chosen = _;
      selection = continuation_for_result r;
      is_last = refl;
      of_task = refl;
      selects = refl;
      goes_on = continuation_for_result-goes_on r;
    })
  ]

  finalize_accepted_continuation-Keeps :
      (r : TaskResult)
      → Keeps P (finalize_accepted_continuation parts r.task_id (continuation_for_result r))
  unfolding finalize_accepted_continuation
  finalize_accepted_continuation-Keeps r = record {
    at = λ s h.
        let kept = (record_continuation-Keeps r.task_id (continuation_for_result r)).at s h in
        bind-from P _ _ s kept (λ _.
          bind-at (count_accepted parts r.task_id) _ _
            (accept r.task_id _ (record_continuation-IsContinued r s) kept)
            (λ _. Keeps-bind _ _ (Keeps-gets _) (λ count.
              Keeps-if (target_boundary_reached parts count) _ _ (λ _. set_terminal-Keeps _ _)
                (λ _. Keeps-pure tt))));
  }

  module _ {again : Action (Orchestrator W) Bool} (kept : Keeps P again) where
    auto_resolve-Keeps : Keeps P (auto_resolve parts again)
    unfolding auto_resolve
    auto_resolve-Keeps =
        Keeps-if parts.auto_resolve_review again _ (λ _. kept) (λ _. Keeps-pure false)

    continuation_decided-Keeps :
        (spec : TaskSpec) (r : TaskResult) (d : PolicyDecision) (kind : PolicyDecisionKind)
        → Keeps P (continuation_decided parts again spec r d kind)
    unfolding continuation_decided
    continuation_decided-Keeps spec r d allow = search keeps_rules
    continuation_decided-Keeps spec r d deny =
        search (keeps_rules, record_continuation-Keeps, set_terminal-Keeps)
    continuation_decided-Keeps spec r d requires_review =
        search (keeps_rules, enter_review-Keeps, auto_resolve-Keeps)

    gate_continuation-Keeps :
        (spec : TaskSpec) (c : ContinuationSelection)
        → Keeps P (gate_continuation parts again spec c)
    unfolding gate_continuation
    gate_continuation-Keeps spec c =
        search (keeps_rules, call-Keeps, note_policy-Keeps, continuation_decided-Keeps)

    choose_continuation-Keeps :
        (spec : TaskSpec) (r : TaskResult) → Keeps P (choose_continuation parts again spec r)
    unfolding choose_continuation
    choose_continuation-Keeps spec r =
        search (keeps_rules, gate_continuation-Keeps, finalize_accepted_continuation-Keeps)

    apply_new_artifact-at :
        (spec : TaskSpec) (r : TaskResult) (kind : ArtifactKind) (text : String)
        (s : Orchestrator W)
        → contains s.applied_artifact_task_ids r.task_id ≡ false
        → P s
        → P (apply_new_artifact parts again spec r kind text s).1
    unfolding apply_new_artifact
    apply_new_artifact-at spec r kind text s new h =
        bind-at (integrate_artifact parts spec r kind text)
          (λ _. choose_continuation parts again spec r) s (integrate spec r kind text s new h)
          (λ _. choose_continuation-Keeps spec r)

    apply_artifact_of-Keeps :
        (spec : TaskSpec) (r : TaskResult) (kind : Option ArtifactKind) (text : Option String)
        → Keeps P (apply_artifact_of parts again spec r kind text)
    unfolding apply_artifact_of ◌>>=◌
    apply_artifact_of-Keeps spec r none text = Keeps-pure tt
    apply_artifact_of-Keeps spec r (some kind) none = Keeps-pure tt
    apply_artifact_of-Keeps spec r (some kind) (some text) = record {
      at = λ s h. elim (Bool-cases (contains s.applied_artifact_task_ids r.task_id)) [
        | inl old ↦ rw old h
        | inr new ↦ rw new (apply_new_artifact-at spec r kind text s new h)
      ];
    }

    apply_accepted_artifact-Keeps :
        (spec : TaskSpec) → Keeps P (apply_accepted_artifact parts again spec)
    unfolding apply_accepted_artifact
    apply_accepted_artifact-Keeps spec = search (keeps_rules, apply_artifact_of-Keeps)

    set_placeholder-Keeps : Keeps P (set_placeholder parts again)
    unfolding set_placeholder
    set_placeholder-Keeps = Keeps-modify _ (λ s h. result s _ h)

    placeholder_reviewed-Keeps :
        (kind : Option ArtifactKind) (accepted : Bool)
        → Keeps P (placeholder_reviewed parts again kind accepted)
    unfolding placeholder_reviewed
    placeholder_reviewed-Keeps kind accepted = search (keeps_rules, Keeps-modify, result)

    review_placeholder-Keeps :
        (kind : Option ArtifactKind) → Keeps P (review_placeholder parts again kind)
    unfolding review_placeholder
    review_placeholder-Keeps kind = Keeps-bind again _ kept (placeholder_reviewed-Keeps kind)

    placeholder_decided-Keeps :
        (spec : TaskSpec) (r : TaskResult) (d : PolicyDecision) (kind : PolicyDecisionKind)
        → Keeps P (placeholder_decided parts again spec r d kind)
    unfolding placeholder_decided
    placeholder_decided-Keeps spec r d allow = search (keeps_rules, set_placeholder-Keeps)
    placeholder_decided-Keeps spec r d deny = search keeps_rules
    placeholder_decided-Keeps spec r d requires_review =
        search (keeps_rules, set_placeholder-Keeps, enter_review-Keeps, review_placeholder-Keeps)
          depth 9

    placeholder_for-Keeps :
        (spec : TaskSpec) (r : TaskResult) (text : Option String)
        → Keeps P (placeholder_for parts again spec r text)
    unfolding placeholder_for
    placeholder_for-Keeps spec r none = search keeps_rules
    placeholder_for-Keeps spec r (some text) =
        search (keeps_rules, call-Keeps, note_policy-Keeps, placeholder_decided-Keeps)

    resolve_placeholder_request-Keeps :
        (spec : TaskSpec) → Keeps P (resolve_placeholder_request parts again spec)
    unfolding resolve_placeholder_request
    resolve_placeholder_request-Keeps spec = search (keeps_rules, placeholder_for-Keeps)
