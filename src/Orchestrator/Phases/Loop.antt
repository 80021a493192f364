-- ===== src/Orchestrator/Phases/Loop.antt =====
-- The state machine across `run_until_terminal`: its runs follow the contract's transitions.
use isabelle_repl.Base.{
  ℤ, ℕ, zero, suc, ◌≡◌, refl, inl, String, Bool, true, false, ◌&&◌, ◌∙◌, Option, none, some, Action,
  if◌then◌else◌, Runs, Runs-pure, Runs-if, Runs-bind, Runs-after, Runs-weaken, Runs-read,
  Runs-Steady, Runs-modify, Keeps-gets, keeps_rules, Runs-state, sym, ap, return,
}
use isabelle_repl.Model.{
  RunState, active, awaiting_review, stopped, completed, finished, RunMode, theory_wide,
  target_boundary, TaskSpec, TaskResult, TaskOutcome, accepted, failed, placeholder, escalated,
  aborted, LocalizedTask, InterventionResponse, stopped_task_failed, target_boundary_completed,
  theory_wide_finished,
}
use isabelle_repl.Orchestrator.State.{
  Parts, Orchestrator, target_boundary_reached, is_active, set_result,
}
use isabelle_repl.Orchestrator.Resume.{resume_from_review}
use isabelle_repl.Orchestrator.Loop.{
  steps_of, is_artifact, finalize_mode, finalize_without_next_task, run_task, stop_failed,
  review_escalated, accept_result, handle_result, handle_task, round, proceed, loop, conclude,
  run_until_terminal, new_task_spec,
}
use isabelle_repl.Orchestrator.Phases.{
  to_stopped, to_completed, to_finished, Reaches, IsPhase, stay, Phase, phase, IsGood, IsActive,
  IsReady, Anything, Whatever,
}
use isabelle_repl.Orchestrator.Phases.Steady.{
  emit-Steady, call-Steady, record_continuation-Steady, record_task-Steady, take_next-Steady,
  record_terminal-Steady,
}
use isabelle_repl.Orchestrator.Phases.Reviews.{enter_review-Runs, set_terminal-Runs}
use isabelle_repl.Orchestrator.Phases.Artifacts.{apply_accepted_artifact-Runs}
use isabelle_repl.Orchestrator.Phases.Pending.{
  resume_body-IsSafe, resume-IsSafe, gate_or_review-Runs,
}

active-is : (st : RunState) → is_active st ≡ true → st ≡ active
active-is active e = refl
active-is awaiting_review e = cc
active-is stopped e = cc
active-is completed e = cc
active-is finished e = cc

module _ {W : Type 0} (parts : Parts W) (from : RunState) (fuel : ℕ) where
  abbrev Safe : {A : Type 0} → (Phase → Type 0) → Action (Orchestrator W) A → Type 0
  Safe P m = Runs phase (IsGood parts from false) P Whatever m

  finalize-Runs : (mode : RunMode) → Safe IsActive (finalize_mode parts mode)
  finalize-Runs target_boundary =
      set_terminal-Runs parts from false completed target_boundary_completed to_completed tt
  finalize-Runs theory_wide =
      set_terminal-Runs parts from false finished theory_wide_finished to_finished tt

  set_result-Runs :
      (r : TaskResult)
      → Runs phase (IsGood parts from false) IsActive (λ _. IsActive) (set_result {W = W} r)
  set_result-Runs r = Runs-modify _ (λ s good p. (
    record {
      consistent = good.consistent;
      reached = good.reached;
      target = good.target;
      remains = λ e. cc;
    },
    p,
  ))

  run_task-Runs :
      (localized : LocalizedTask) (spec : TaskSpec)
      → Runs phase
          (IsGood parts from false)
          IsActive
          (λ _. IsActive)
          (run_task parts localized spec)
  unfolding run_task
  run_task-Runs localized spec = Runs-after (emit-Steady parts _ _) λ _.
      Runs-after (call-Steady parts _) λ r. Runs-bind (set_result-Runs r) λ _.
        Runs-after (emit-Steady parts _ _)
          λ _. Runs-after (record_task-Steady parts _ _ _) λ _. Runs-pure r (λ v c p. p)

  stop_failed-Runs : (task_id : String) → Safe IsActive (stop_failed parts task_id)
  unfolding stop_failed
  stop_failed-Runs task_id = Runs-after (record_continuation-Steady parts _ _) λ _.
      Runs-bind (set_terminal-Runs parts from false stopped stopped_task_failed to_stopped tt)
        λ _. Runs-pure false (λ v c p. tt)

  review_escalated-Runs : (spec : TaskSpec) → Safe IsActive (review_escalated parts fuel spec)
  unfolding review_escalated
  review_escalated-Runs spec =
      Runs-bind (enter_review-Runs parts from false spec _ _ _ (λ r. tt)) λ _.
        Runs-if parts.auto_resolve_review
          (λ _.
            Runs-bind
              (Runs-weaken ((resume-IsSafe parts from fuel).keeps false) (λ v c p. tt)
                (λ a v c p. tt))
              λ resumed.
                Runs-after (λ v. Keeps-gets _)
                  λ terminal. Runs-pure (if resumed && terminal then false else true) (λ v c p. tt))
          (λ _. Runs-pure false (λ v c p. tt))

  accept_result-Runs : (spec : TaskSpec) → Safe IsActive (accept_result parts fuel spec)
  unfolding accept_result
  accept_result-Runs spec = Runs-bind (gate_or_review-Runs parts from fuel spec) λ allowed.
      Runs-after (λ v. Keeps-gets _)
        λ awaiting.
          Runs-if awaiting (λ _. Runs-pure false (λ v c p. tt))
            (λ _.
              Runs-if allowed
                (λ e.
                  Runs-bind
                    (Runs-weaken
                      (apply_accepted_artifact-Runs parts from _ (resume-IsSafe parts from fuel)
                        false spec)
                      (λ v c p. inl (p e)) (λ a v c p. p))
                    (λ _.
                      Runs-weaken (Runs-Steady {P = IsReady} (λ v. Keeps-gets _)) (λ v c p. p)
                        (λ a v c p. tt)))
                (λ _. Runs-pure true (λ v c p. tt)))

  handle_result-Runs :
      (spec : TaskSpec) (r : TaskResult) (outcome : TaskOutcome)
      → Safe IsActive (handle_result parts fuel spec r outcome)
  unfolding handle_result
  handle_result-Runs spec r failed = stop_failed-Runs r.task_id
  handle_result-Runs spec r escalated = review_escalated-Runs spec
  handle_result-Runs spec r accepted =
      Runs-if (is_artifact r) (λ _. accept_result-Runs spec) (λ _. Runs-pure true (λ v c p. tt))
  handle_result-Runs spec r placeholder =
      Runs-if (is_artifact r) (λ _. accept_result-Runs spec) (λ _. Runs-pure true (λ v c p. tt))
  handle_result-Runs spec r aborted =
      Runs-if (is_artifact r) (λ _. accept_result-Runs spec) (λ _. Runs-pure true (λ v c p. tt))

  round-Runs : Safe IsActive (round parts fuel)
  unfolding round handle_task finalize_without_next_task
  round-Runs = Runs-after (take_next-Steady parts) handle
    where
      handle : (localized : Option LocalizedTask) → Safe IsActive (handle_task parts fuel localized)
      handle none = Runs-bind (finalize-Runs parts.run_mode) λ _. Runs-pure false (λ v c p. tt)
      handle (some localized) =
          Runs-bind (run_task-Runs localized _)
            λ r. handle_result-Runs (new_task_spec parts.theory_run_id localized) r r.outcome

  proceed-Runs :
      {rest : Action (Orchestrator W) (Unit {0})}
      → Safe Anything rest
      → (go_on : Bool) → Safe Anything (proceed parts fuel rest go_on)
  proceed-Runs run true = run
  proceed-Runs run false = Runs-pure tt (λ v c p. tt)

  loop-Runs : (steps : ℕ) → Safe Anything (loop parts fuel steps)
  unfolding loop
  loop-Runs zero = Runs-pure tt (λ v c p. tt)
  loop-Runs (suc steps) =
      Runs-read (λ v. is_active v.state)
        λ running.
          Runs-bind
            (Runs-if running
              (λ e. Runs-weaken round-Runs (λ v c p. active-is v.state (p.1 ∙ e)) (λ a v c p. p))
              (λ _. Runs-pure false (λ v c p. tt)))
            (proceed-Runs (loop-Runs steps))

  -- What `run_until_terminal` returns is the state of the run.
  conclude-Runs :
      (max_steps : ℤ)
      → Runs phase
          (IsGood parts from false)
          Anything
          (λ st v. v.state ≡ st)
          (conclude parts fuel max_steps)
  unfolding conclude
  conclude-Runs max_steps = Runs-state λ s.
      Runs-after (λ v. search (keeps_rules, emit-Steady, record_terminal-Steady))
        λ _. Runs-pure s.state (λ v c p. sym (ap (λ (w : Phase). w.state) p.1))

  run_until_terminal-Runs :
      (max_steps : ℤ)
      → Runs phase
          (IsGood parts from false)
          Anything
          (λ st v. v.state ≡ st)
          (run_until_terminal parts fuel max_steps)
  unfolding run_until_terminal
  run_until_terminal-Runs max_steps = Runs-after (emit-Steady parts _ _) λ _.
      Runs-bind (loop-Runs (steps_of max_steps))
        λ _. Runs-weaken (conclude-Runs max_steps) (λ v c p. p) (λ a v c p. p)

-- What the state machine contract asks of a run: the state, the pending review and the terminal
-- reason fit together, and once the accepted artifacts reach the target the run is completed.
pub record IsConsistent {W : Type 0} (parts : Parts W) (s : Orchestrator W) : Type 0 where
  pub fits : IsPhase s.state s.pending_review s.terminal_reason
  pub target : target_boundary_reached parts s.accepted_artifact_count ≡ true → s.state ≡ completed

module _ {W : Type 0} (parts : Parts W) (fuel : ℕ) (s : Orchestrator W) where
  start-IsGood : IsConsistent parts s → IsGood parts s.state false (phase s)
  start-IsGood h = record {
    consistent = h.fits;
    reached = stay;
    target = h.target;
    remains = λ e. cc;
  }

  -- From a consistent run, `run_until_terminal` leaves a consistent run, whose state the contract's
  -- transitions reach from the state before, however the parts behave and wherever one raises; and
  -- the state that it returns is the state of the run.
  pub run_until_terminal-IsConsistent :
      (max_steps : ℤ)
      → IsConsistent parts s
      → IsConsistent parts (run_until_terminal parts fuel max_steps s).1
        × Reaches s.state (run_until_terminal parts fuel max_steps s).1.state
        × ((st : RunState)
            → (run_until_terminal parts fuel max_steps s).0 ≡ return st
            → (run_until_terminal parts fuel max_steps s).1.state ≡ st)
  run_until_terminal-IsConsistent max_steps h =
      let (good, returned) =
        (run_until_terminal-Runs parts s.state fuel max_steps).at s (start-IsGood h) tt in
      (record { fits = good.consistent; target = good.target }, good.reached, returned)

  -- From a consistent run, `resume_from_review` leaves a consistent run, whose state the contract's
  -- transitions reach from the state before, with any response or none, in a review or outside one.
  pub resume_from_review-IsConsistent :
      (response : Option InterventionResponse)
      → IsConsistent parts s
      → IsConsistent parts (resume_from_review parts fuel response s).1
        × Reaches s.state (resume_from_review parts fuel response s).1.state
  unfolding resume_from_review
  resume_from_review-IsConsistent response h =
      let (good, _) =
        ((resume_body-IsSafe parts s.state _ response (resume-IsSafe parts s.state fuel)).keeps
            false).at
          s (start-IsGood h) tt in
      (record { fits = good.consistent; target = good.target }, good.reached)
