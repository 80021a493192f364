-- ===== src/Orchestrator/Frame/Rounds.antt =====
-- The frame invariants across `resume_from_review` and `run_until_terminal`.
use isabelle_repl.Base.{
  ℤ, ℕ, zero, suc, String, truthy, Bool, true, false, Option, none, some, Keeps, Keeps-pure,
  Keeps-exhausted, Keeps-gets, Keeps-if, Keeps-bind, Keeps-modify, keeps_rules, Action,
}
use isabelle_repl.Model.{
  ReviewReason, continuation_policy_requires_review, PendingReview, TaskSpec, TaskResult,
  InterventionResponse, InterventionResponseKind, InterventionContext, approve_current_artifact,
  reject_current_artifact, provide_replacement_artifact, request_committed_placeholder,
  request_stop, PolicyDecision, PolicyDecisionKind, allow, deny, requires_review, active,
  LocalizedTask, TaskOutcome, failed, escalated, TerminalReason, theory_wide, target_boundary,
  RunMode,
}
use isabelle_repl.Orchestrator.State.{Parts, Orchestrator, is_awaiting}
use isabelle_repl.Orchestrator.Recording.{record_terminal, record_terminal_for}
use isabelle_repl.Orchestrator.Resume.{
  try_replacement, replacement_given, valid_response, stop_by_review, unless_invalid, response_of,
  apply_review_response, after_accepted, given_response, resume_pending, resume_if, resume_body,
  resume, resume_from_review, artifact_decided, gate_or_review,
}
use isabelle_repl.Orchestrator.Loop.{
  take_next, is_artifact, finalize_mode, finalize_without_next_task, run_task, stop_failed,
  review_escalated, accept_result, handle_result, handle_task, round, proceed, loop, conclude,
  run_until_terminal,
}
use isabelle_repl.Orchestrator.Frame.{
  IsFrame, emit-Keeps, call-Keeps, set_terminal-Keeps, set_result-Keeps, record_continuation-Keeps,
  record_intervention-Keeps, note_policy-Keeps, record_task-Keeps, enter_review-Keeps,
  finalize_accepted_continuation-Keeps, auto_resolve-Keeps, apply_accepted_artifact-Keeps,
  resolve_placeholder_request-Keeps,
}

module _ {W : Type 0} (parts : Parts W) {P : Orchestrator W → Type 0}
    (frame : IsFrame parts P) where
  module _ {again : Action (Orchestrator W) Bool} (kept : Keeps P again) where
    try_replacement-Keeps :
        (spec : TaskSpec) (text : String) → Keeps P (try_replacement parts again spec text)
    unfolding try_replacement
    try_replacement-Keeps spec text = Keeps-bind _ _ (call-Keeps parts frame _) λ v.
        Keeps-bind _ _ (Keeps-modify _ (λ s h. frame.result s _ h))
          λ _. search (keeps_rules, Keeps-modify, frame.result)

    replacement_given-Keeps :
        (spec : TaskSpec) (text : Option String) → Keeps P (replacement_given parts again spec text)
    replacement_given-Keeps spec none = Keeps-pure false
    replacement_given-Keeps spec (some text) =
        Keeps-if (truthy text) _ _ (λ _. try_replacement-Keeps spec text) (λ _. Keeps-pure false)

    valid_response-Keeps :
        (spec : TaskSpec) (response : InterventionResponse) (kind : InterventionResponseKind)
        → Keeps P (valid_response parts again spec response kind)
    valid_response-Keeps spec response approve_current_artifact = Keeps-pure true
    valid_response-Keeps spec response reject_current_artifact = Keeps-pure false
    valid_response-Keeps spec response provide_replacement_artifact =
        replacement_given-Keeps spec response.replacement_artifact_text
    valid_response-Keeps spec response request_committed_placeholder =
        resolve_placeholder_request-Keeps parts frame kept spec
    valid_response-Keeps spec response request_stop = Keeps-pure false

    unless_invalid-Keeps :
        (invalid : Option String) {m : Action (Orchestrator W) Bool}
        → Keeps P m
        → Keeps P (unless_invalid parts again invalid m)
    unless_invalid-Keeps none km = km
    unless_invalid-Keeps (some reason) km = Keeps-pure false

    stop_by_review-Keeps : (task_id : String) → Keeps P (stop_by_review parts again task_id)
    unfolding stop_by_review
    stop_by_review-Keeps task_id =
        search (keeps_rules, record_continuation-Keeps parts frame, set_terminal-Keeps parts frame)

    response_of-Keeps :
        (spec : TaskSpec) (response : InterventionResponse) (invalid : Option String)
        (kind : InterventionResponseKind)
        → Keeps P (response_of parts again spec response invalid kind)
    response_of-Keeps spec response invalid request_stop = record {
      at = λ s. (stop_by_review-Keeps s.current_result.task_id).at s;
    }
    response_of-Keeps spec response invalid kind =
        unless_invalid-Keeps invalid (valid_response-Keeps spec response kind)

    apply_review_response-Keeps :
        (spec : TaskSpec) (response : InterventionResponse) (invalid : Option String)
        → Keeps P (apply_review_response parts again spec response invalid)
    unfolding apply_review_response
    apply_review_response-Keeps spec response invalid =
        response_of-Keeps spec response invalid response.kind

    after_accepted-Keeps :
        (pending : PendingReview) (reason : ReviewReason)
        → Keeps P (after_accepted parts again pending reason)
    unfolding after_accepted
    after_accepted-Keeps pending continuation_policy_requires_review =
        search (keeps_rules, finalize_accepted_continuation-Keeps parts frame)
    after_accepted-Keeps pending _ =
        apply_accepted_artifact-Keeps parts frame kept pending.task_spec

    given_response-Keeps :
        (response : Option InterventionResponse) (context : InterventionContext)
        → Keeps P (given_response parts again response context)
    given_response-Keeps none context = call-Keeps parts frame (parts.handle context)
    given_response-Keeps (some response) context = Keeps-pure response

    resume_pending-Keeps :
        (response : Option InterventionResponse) (pending : PendingReview)
        → Keeps P (resume_pending parts again response pending)
    unfolding resume_pending
    resume_pending-Keeps response pending =
        Keeps-bind _ _ (given_response-Keeps response pending.context) λ raw.
          Keeps-bind _ _ (Keeps-gets _) λ task_id. Keeps-bind _ _ (emit-Keeps parts frame _ _) λ _.
            Keeps-bind _ _ (record_intervention-Keeps parts frame _ _ _ _ _) λ _.
              Keeps-bind _ _ (Keeps-modify _ (λ s h. frame.phase s active none s.terminal_reason h))
                λ _. search (keeps_rules, apply_review_response-Keeps, after_accepted-Keeps)

    resume_if-Keeps :
        (response : Option InterventionResponse) (awaiting : Bool) (pending : Option PendingReview)
        → Keeps P (resume_if parts again awaiting response pending)
    resume_if-Keeps response true (some pending) = resume_pending-Keeps response pending
    resume_if-Keeps response true none = Keeps-pure false
    resume_if-Keeps response false pending = Keeps-pure false

    resume_body-Keeps :
        (response : Option InterventionResponse) → Keeps P (resume_body parts again response)
    unfolding resume_body
    resume_body-Keeps response = record {
      at = λ s. (resume_if-Keeps response (is_awaiting s.state) s.pending_review).at s;
    }

  resume-Keeps : (fuel : ℕ) → Keeps P (resume parts fuel)
  unfolding resume
  resume-Keeps zero = Keeps-exhausted
  resume-Keeps (suc fuel) = resume_body-Keeps (resume-Keeps fuel) none

  pub resume_from_review-Keeps :
      (fuel : ℕ) (response : Option InterventionResponse)
      → Keeps P (resume_from_review parts fuel response)
  unfolding resume_from_review
  resume_from_review-Keeps fuel response = resume_body-Keeps (resume-Keeps fuel) response

  artifact_decided-Keeps :
      (fuel : ℕ) (spec : TaskSpec) (d : PolicyDecision) (kind : PolicyDecisionKind)
      → Keeps P (artifact_decided parts fuel spec d kind)
  unfolding artifact_decided
  artifact_decided-Keeps fuel spec d allow = search keeps_rules
  artifact_decided-Keeps fuel spec d deny = search keeps_rules
  artifact_decided-Keeps fuel spec d requires_review =
      Keeps-bind _ _ (enter_review-Keeps parts frame _ _ _ _) (λ _.
        Keeps-bind _ _ (auto_resolve-Keeps parts frame (resume-Keeps fuel)) (λ _. Keeps-pure false))

  gate_or_review-Keeps : (fuel : ℕ) (spec : TaskSpec) → Keeps P (gate_or_review parts fuel spec)
  unfolding gate_or_review
  gate_or_review-Keeps fuel spec =
      search
        (keeps_rules, call-Keeps parts frame, note_policy-Keeps parts frame, artifact_decided-Keeps)

  record_terminal-Keeps : Keeps P (record_terminal parts)
  unfolding record_terminal record_terminal_for
  record_terminal-Keeps = record { at = λ s. (for_reason s.terminal_reason).at s }
    where
      for_reason : (reason : Option TerminalReason) → Keeps P (record_terminal_for parts reason)
      for_reason none = Keeps-pure tt
      for_reason (some reason) =
          Keeps-bind _ _ (Keeps-gets _)
            (λ s. Keeps-bind _ _ (frame.append none _ tt) (λ _. Keeps-pure tt))

  finalize_mode-Keeps : (mode : RunMode) → Keeps P (finalize_mode parts mode)
  finalize_mode-Keeps target_boundary = set_terminal-Keeps parts frame _ _
  finalize_mode-Keeps theory_wide = set_terminal-Keeps parts frame _ _

  finalize-Keeps : Keeps P (finalize_without_next_task parts)
  unfolding finalize_without_next_task
  finalize-Keeps = finalize_mode-Keeps parts.run_mode

  module _ (localize : Keeps P (take_next parts)) where
    run_task-Keeps :
        (localized : LocalizedTask) (spec : TaskSpec) → Keeps P (run_task parts localized spec)
    unfolding run_task
    run_task-Keeps localized spec =
        search
          (
            keeps_rules,
            emit-Keeps parts frame,
            call-Keeps parts frame,
            set_result-Keeps parts frame,
            record_task-Keeps parts frame,
          )
          depth 9

    stop_failed-Keeps : (task_id : String) → Keeps P (stop_failed parts task_id)
    unfolding stop_failed
    stop_failed-Keeps task_id =
        search (keeps_rules, record_continuation-Keeps parts frame, set_terminal-Keeps parts frame)

    module _ (fuel : ℕ) where
      review_escalated-Keeps : (spec : TaskSpec) → Keeps P (review_escalated parts fuel spec)
      unfolding review_escalated
      review_escalated-Keeps spec =
          search (keeps_rules, enter_review-Keeps parts frame, resume-Keeps) depth 9

      accept_result-Keeps : (spec : TaskSpec) → Keeps P (accept_result parts fuel spec)
      unfolding accept_result
      accept_result-Keeps spec =
          search
            (
              keeps_rules,
              gate_or_review-Keeps,
              apply_accepted_artifact-Keeps parts frame (resume-Keeps fuel),
            )
            depth 9

      handle_result-Keeps :
          (spec : TaskSpec) (r : TaskResult) (outcome : TaskOutcome)
          → Keeps P (handle_result parts fuel spec r outcome)
      unfolding handle_result
      handle_result-Keeps spec r failed = stop_failed-Keeps r.task_id
      handle_result-Keeps spec r escalated = review_escalated-Keeps spec
      handle_result-Keeps spec r _ =
          Keeps-if (is_artifact r) _ _ (λ _. accept_result-Keeps spec) (λ _. Keeps-pure true)

      handle_task-Keeps : (t : Option LocalizedTask) → Keeps P (handle_task parts fuel t)
      unfolding handle_task
      handle_task-Keeps none = search (keeps_rules, finalize-Keeps)
      handle_task-Keeps (some localized) = search (keeps_rules, run_task-Keeps, handle_result-Keeps)

      round-Keeps : Keeps P (round parts fuel)
      unfolding round
      round-Keeps = search (keeps_rules, localize, handle_task-Keeps)

      proceed-Keeps :
          {rest : Action (Orchestrator W) (Unit {0})}
          → Keeps P rest
          → (go_on : Bool) → Keeps P (proceed parts fuel rest go_on)
      proceed-Keeps kr true = kr
      proceed-Keeps kr false = Keeps-pure tt

      loop-Keeps : (steps : ℕ) → Keeps P (loop parts fuel steps)
      unfolding loop
      loop-Keeps zero = Keeps-pure tt
      loop-Keeps (suc steps) = Keeps-bind _ _ (Keeps-gets _) λ running.
          Keeps-bind _ _
            (Keeps-if running (round parts fuel) _ (λ _. round-Keeps) (λ _. Keeps-pure false))
            (proceed-Keeps (loop-Keeps steps))

      conclude-Keeps : (max_steps : ℤ) → Keeps P (conclude parts fuel max_steps)
      unfolding conclude
      conclude-Keeps max_steps =
          search (keeps_rules, emit-Keeps parts frame, record_terminal-Keeps) depth 9

      -- The whole run keeps a frame invariant that the localizer keeps.
      pub run_until_terminal-Keeps :
          (max_steps : ℤ) → Keeps P (run_until_terminal parts fuel max_steps)
      unfolding run_until_terminal
      run_until_terminal-Keeps max_steps =
          search (keeps_rules, emit-Keeps parts frame, loop-Keeps, conclude-Keeps)
