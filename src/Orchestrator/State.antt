-- ===== src/Orchestrator/State.antt =====
-- The fields of `TheoryRepairOrchestrator`: those that stay (`Parts`) and those that change
-- (`Orchestrator`), with its events (`_emit`) and the parts that it calls through protocols.py.
use isabelle_repl.Base.{
  pos, ltb_ℤ, not, ℤ, ℕ, String, Bool, true, false, Option, none, some, List, [], ◌∷◌, ◌++◌, Action,
  Attempt, return, settle, modify, if◌then◌else◌,
}
use isabelle_repl.Model.{
  RunState, active, awaiting_review, stopped, completed, finished, RunMode, theory_wide,
  target_boundary, FailureKind, ArtifactKind, TaskOutcome, failed, PolicyDecision,
  InterventionContext, InterventionResponse, InterventionResponseKind, LocalizedTask, TaskSpec,
  TaskResult, bare_result, ValidationResult, PolicyContext, PendingReview, ContinuationSelection,
  TerminalReason, RunRecord,
}
use isabelle_repl.Records.{Stamps, RunRecordFactory, RecordStore, SerializedRecord}
use isabelle_repl.Snapshot.{Snapshot}

-- The parts behind the protocols of model/protocols.py. `W` is the state of all that they reach: the
-- REPL server, the reviewer and the parts' own fields.
pub record Parts (W : Type 0) : Type 0 where
  pub theory_run_id : String
  pub next_task : String → Snapshot → W → Attempt (Option LocalizedTask) × Snapshot × W
  pub run_task : TaskSpec → W → Attempt TaskResult × W
  pub validate_candidate : TaskSpec → String → W → Attempt ValidationResult × W
  pub decide : PolicyContext → W → Attempt PolicyDecision × W
  pub handle : InterventionContext → W → Attempt InterventionResponse × W
  pub stamps : Stamps
  -- `json.dumps` of the stores
  pub dumps_record : SerializedRecord → String
  -- the order in which Python walks a set of response kinds
  pub iterate : List InterventionResponseKind → List InterventionResponseKind
  pub has_logger : Bool
  pub auto_resolve_review : Bool
  pub run_mode : RunMode
  pub target_max_tasks : Option ℤ

-- An event of the logger with its payload.
pub data EventPayload : Type 0 where
  run_started : (max_steps : ℤ) → RunMode → Option ℤ → EventPayload
  task_selected : FailureKind → (block_kind : String) → EventPayload
  task_result : TaskOutcome → Option ArtifactKind → EventPayload
  policy_decision : PolicyDecision → EventPayload
  review_entered : EventPayload
  review_resolved :
      InterventionResponseKind → (invalid_response_reason : Option String) → EventPayload
  artifact_applied : ArtifactKind → String → EventPayload
  continuation_selected : ContinuationSelection → EventPayload
  run_finished : RunState → Option TerminalReason → EventPayload
  run_paused : RunState → (max_steps : ℤ) → EventPayload

pub record Event : Type 0 where
  pub payload : EventPayload
  pub task_id : Option String
  pub state : RunState

-- `current_result` is the TaskResult that the methods at work and the pending review share; the
-- engine makes a new one for each task. `record_store` is the composite of the run's stores; `records`
-- lists the records that were ever appended to it.
pub record Orchestrator (W : Type 0) : Type 0 where
  pub state : RunState
  pub pending_review : Option PendingReview
  pub current_result : TaskResult
  pub accepted_artifact_count : ℕ
  pub terminal_reason : Option TerminalReason
  pub applied_artifact_task_ids : List String
  pub snapshot : Snapshot
  pub record_factory : RunRecordFactory
  pub record_store : List RecordStore
  pub records : List RunRecord
  pub events : List Event
  pub world : W

-- A new orchestrator. No TaskResult is read before the engine has made one.
abbrev pub new_orchestrator :
    {W : Type 0}
    → RunRecordFactory
    → List RecordStore
    → List RunRecord
    → Snapshot
    → W
    → Orchestrator W
new_orchestrator factory record_store records snapshot world = record {
  state = active;
  pending_review = none;
  current_result = bare_result "" failed;
  accepted_artifact_count = 0;
  terminal_reason = none;
  applied_artifact_task_ids = [];
  snapshot = snapshot;
  record_factory = factory;
  record_store = record_store;
  records = records;
  events = [];
  world = world;
}

-- `self.state == RunState.ACTIVE`
abbrev pub is_active : RunState → Bool
is_active active = true
is_active _ = false

abbrev pub is_awaiting : RunState → Bool
is_awaiting awaiting_review = true
is_awaiting _ = false

-- `_is_terminal_state`
abbrev pub is_terminal_state : RunState → Bool
is_terminal_state stopped = true
is_terminal_state completed = true
is_terminal_state finished = true
is_terminal_state _ = false

module _ {W : Type 0} where
  -- A call of a part that reads and writes only the world.
  abbrev pub call : {A : Type 0} → (W → Attempt A × W) → Action (Orchestrator W) A
  call f s = let (r, w) = f s.world in (settle r, record s { world = w })

  -- A method of the snapshot.
  abbrev pub on_snapshot : {A : Type 0} → Action Snapshot A → Action (Orchestrator W) A
  on_snapshot m s = let (r, snap) = m s.snapshot in (r, record s { snapshot = snap })

  abbrev pub set_state : RunState → Action (Orchestrator W) (Unit {0})
  set_state state = modify (λ s. record s { state = state })

  abbrev pub set_terminal : RunState → TerminalReason → Action (Orchestrator W) (Unit {0})
  set_terminal state reason =
      modify (λ s. record s { state = state; terminal_reason = some reason })

  abbrev pub set_result : TaskResult → Action (Orchestrator W) (Unit {0})
  set_result r = modify (λ s. record s { current_result = r })

module _ {W : Type 0} (parts : Parts W) where
  unfoldable pub emit : Option String → EventPayload → Action (Orchestrator W) (Unit {0})
  emit task_id payload s =
      if parts.has_logger
      then (
        return tt,
        record s {
          events =
              s.events ++ (record { payload = payload; task_id = task_id; state = s.state }) ∷ [];
        },
      )
      else (return tt, s)

abbrev at_least : ℕ → Option ℤ → Bool
at_least count none = false
at_least count (some target) = not (ltb_ℤ (pos count) target)

abbrev boundary_reached : RunMode → Option ℤ → ℕ → Bool
boundary_reached theory_wide target count = false
boundary_reached target_boundary target count = at_least count target

module _ {W : Type 0} (parts : Parts W) where
  -- `_target_boundary_reached`
  abbrev pub target_boundary_reached : ℕ → Bool
  target_boundary_reached = boundary_reached parts.run_mode parts.target_max_tasks
