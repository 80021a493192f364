-- ===== src/Orchestrator/Frame/Contract.antt =====
-- The contract of the frame invariants: what they have to keep.
use isabelle_repl.Base.{
  ◌≡◌, String, Bool, true, false, Option, some, List, [], ◌∷◌, ◌++◌, contains, string_eq, Keeps,
}
use isabelle_repl.Model.{
  RunState, PendingReview, TerminalReason, TaskResult, TaskSpec, ArtifactKind, RecordPayload,
  run_metadata, task, artifact, policy_decision, intervention, continuation, provenance,
  patch_provenance, terminal, ContinuationSelection, ContinuationKind, stop, RunRecord,
}
use isabelle_repl.Orchestrator.State.{Parts, Orchestrator, Event}
use isabelle_repl.Orchestrator.Recording.{append_record}
use isabelle_repl.Orchestrator.Reviews.{count_accepted, integrate_artifact}

-- The payloads of records that need no other change beside them.
abbrev pub IsPlain : RecordPayload → Type 0
IsPlain (artifact _ _ _ _) = ⊥
IsPlain provenance = ⊥
IsPlain _ = Unit

abbrev pub is_stop : ContinuationKind → Bool
is_stop stop = true
is_stop _ = false

-- The last record is that of a continuation of the task that goes on.
pub record IsContinued {W : Type 0} (task_id : String) (s : Orchestrator W) : Type 0 where
  pub before : List RunRecord
  pub chosen : RunRecord
  pub selection : ContinuationSelection
  pub is_last : s.records ≡ before ++ chosen ∷ []
  pub of_task : chosen.task_id ≡ some task_id
  pub selects : chosen.payload ≡ continuation selection
  pub goes_on : is_stop selection.kind ≡ false

-- The payloads that the orchestrator appends with nothing else beside them: those of `IsPlain` but the
-- one of a patch's provenance, which is written when the run is over.
abbrev pub IsOfRun : RecordPayload → Type 0
IsOfRun (patch_provenance _ _ _) = ⊥
IsOfRun (artifact _ _ _ _) = ⊥
IsOfRun provenance = ⊥
IsOfRun _ = Unit

pub IsOfRun-IsPlain : (p : RecordPayload) → IsOfRun p → IsPlain p
IsOfRun-IsPlain (patch_provenance a b c) h = absurd h
IsOfRun-IsPlain (artifact a b c d) h = absurd h
IsOfRun-IsPlain provenance h = absurd h
IsOfRun-IsPlain (run_metadata a b c d) h = tt
IsOfRun-IsPlain (task a b c d) h = tt
IsOfRun-IsPlain (policy_decision a b c d) h = tt
IsOfRun-IsPlain (intervention a b c d) h = tt
IsOfRun-IsPlain (continuation a) h = tt
IsOfRun-IsPlain (terminal a b c d e) h = tt

-- An invariant that does not read the state machine, the shared result, the events or the world.
pub record IsFrame {W : Type 0} (parts : Parts W) (P : Orchestrator W → Type 0) : Type 0 where
  pub phase :
      (s : Orchestrator W) (st : RunState) (pending : Option PendingReview)
      (reason : Option TerminalReason)
      → P s
      → P (record s { state = st; pending_review = pending; terminal_reason = reason })
  pub result : (s : Orchestrator W) (r : TaskResult) → P s → P (record s { current_result = r })
  pub event : (s : Orchestrator W) (es : List Event) → P s → P (record s { events = es })
  pub outside : (s : Orchestrator W) (w : W) → P s → P (record s { world = w })
  pub append :
      (task_id : Option String) (payload : RecordPayload)
      → IsOfRun payload
      → Keeps P (append_record parts task_id payload)
  pub accept :
      (task_id : String) (s : Orchestrator W)
      → IsContinued task_id s
      → P s
      → P (count_accepted parts task_id s).1
  pub integrate :
      (spec : TaskSpec) (r : TaskResult) (kind : ArtifactKind) (text : String) (s : Orchestrator W)
      → contains s.applied_artifact_task_ids r.task_id ≡ false
      → P s
      → P (integrate_artifact parts spec r kind text s).1
