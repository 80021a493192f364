-- ===== src/Orchestrator/Phases/Steady.antt =====
-- The methods that leave the state machine of a run as it is.
use isabelle_repl.Base.{
  none, String, Option, some, List, Keeps-gets, Keeps-bind, Steady, Attempt, Bool-cases, inl, inr,
  string_eq, Keeps-pure,
}
use isabelle_repl.Model.{
  RecordPayload, PolicyDecision, PolicyReason, ContinuationSelection, ReviewReason,
  InterventionResponseKind, TaskResult, TerminalReason,
}
use isabelle_repl.Records.{create}
use isabelle_repl.Orchestrator.State.{Parts, Orchestrator, EventPayload, emit, call}
use isabelle_repl.Orchestrator.Recording.{
  append_record, record_task, record_policy, note_policy, record_intervention, record_continuation,
  record_terminal, record_terminal_for,
}
use isabelle_repl.Orchestrator.Loop.{take_next}
use isabelle_repl.Orchestrator.Phases.{phase}

module _ {W : Type 0} (parts : Parts W) where
  pub emit-Steady :
      (task_id : Option String) (payload : EventPayload) → Steady phase (emit parts task_id payload)
  unfolding emit
  emit-Steady task_id payload v = record {
    at = λ s h. elim (Bool-cases parts.has_logger) [
      | inl logs ↦ rw (logs, emit) h
      | inr silent ↦ rw (silent, emit) h
    ];
  }

  pub call-Steady :
      {A : Type 0} (f : W → Attempt A × W) → Steady {S = Orchestrator W} phase (call f)
  call-Steady f v = record { at = λ s h. h }

  pub append_record-Steady :
      (task_id : Option String) (payload : RecordPayload)
      → Steady phase (append_record parts task_id payload)
  unfolding append_record create
  append_record-Steady task_id payload v = record { at = λ s h. h }

  pub record_continuation-Steady :
      (task_id : String) (c : ContinuationSelection)
      → Steady phase (record_continuation parts task_id c)
  unfolding record_continuation
  record_continuation-Steady task_id c v =
      Keeps-bind _ _ (emit-Steady _ _ v) (λ _. append_record-Steady _ _ v)

  pub record_intervention-Steady :
      (task_id : String) (reason : ReviewReason) (allowed : List InterventionResponseKind)
      (kind : Option InterventionResponseKind) (invalid : Option String)
      → Steady phase (record_intervention parts task_id reason allowed kind invalid)
  unfolding record_intervention
  record_intervention-Steady task_id reason allowed kind invalid v = append_record-Steady _ _ v

  pub note_policy-Steady :
      (task_id : String) (d : PolicyDecision) (reason : PolicyReason)
      → Steady phase (note_policy parts task_id d reason)
  unfolding note_policy record_policy
  note_policy-Steady task_id d reason v =
      Keeps-bind _ _ (emit-Steady _ _ v) (λ _. append_record-Steady _ _ v)

  pub record_task-Steady :
      (r : TaskResult) (block_kind : String) (drift : Option String)
      → Steady phase (record_task parts r block_kind drift)
  unfolding record_task
  record_task-Steady r block_kind drift v =
      Keeps-bind _ _ (Keeps-gets _) (λ m. append_record-Steady _ _ v)

  pub take_next-Steady : Steady phase (take_next parts)
  take_next-Steady v = record { at = λ s h. h }

  record_terminal_for-Steady :
      (reason : Option TerminalReason) → Steady phase (record_terminal_for parts reason)
  unfolding record_terminal_for
  record_terminal_for-Steady none v = Keeps-pure tt
  record_terminal_for-Steady (some reason) v =
      Keeps-bind _ _ (Keeps-gets _)
        (λ s. Keeps-bind _ _ (append_record-Steady _ _ v) (λ _. Keeps-pure tt))

  pub record_terminal-Steady : Steady phase (record_terminal parts)
  unfolding record_terminal
  record_terminal-Steady v = record {
    at = λ s h. (record_terminal_for-Steady s.terminal_reason v).at s h;
  }
