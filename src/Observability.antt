-- ===== src/Observability.antt =====
-- python/src/isabelle_repair/run/observability.py: the loggers. The clock and `json.dumps` are
-- parameters; a logger's stream is the list of the lines written to it.
use isabelle_repl.Base.{String, Option, List, [], ◌∷◌, ◌++◌, ◌≡◌, refl, sym, ◌∙◌}
use mathlib.Core.List.{append-nil, append_assoc}
use isabelle_repl.Model.{RunState, active, awaiting_review, stopped, completed, finished}
use isabelle_repl.Orchestrator.State.{
  Event, EventPayload, run_started, task_selected, task_result, policy_decision, review_entered,
  review_resolved, artifact_applied, continuation_selected, run_finished, run_paused,
}

pub record JsonEventLogger : Type 0 where
  pub run_id : String
  pub stream : List String

-- The dict that `emit` writes, its keys in the order of the source.
pub record LogRecord : Type 0 where
  pub timestamp : String
  pub level : String
  pub event : String
  pub run_id : String
  pub task_id : Option String
  pub state : String
  pub payload : EventPayload

-- `state.value`
abbrev pub run_state_value : RunState → String
run_state_value active = "active"
run_state_value awaiting_review = "awaiting_review"
run_state_value stopped = "stopped"
run_state_value completed = "completed"
run_state_value finished = "finished"

-- The first argument of the orchestrator's `_emit`.
abbrev pub event_name : EventPayload → String
event_name (run_started _ _ _) = "run_started"
event_name (task_selected _ _) = "task_selected"
event_name (task_result _ _) = "task_result"
event_name (policy_decision _) = "policy_decision"
event_name review_entered = "review_entered"
event_name (review_resolved _ _) = "review_resolved"
event_name (artifact_applied _ _) = "artifact_applied"
event_name (continuation_selected _) = "continuation_selected"
event_name (run_finished _ _) = "run_finished"
event_name (run_paused _ _) = "run_paused"

abbrev pub log_record : String → String → Event → LogRecord
log_record timestamp run_id e = record {
  timestamp = timestamp;
  level = "INFO";
  event = event_name e.payload;
  run_id = run_id;
  task_id = e.task_id;
  state = run_state_value e.state;
  payload = e.payload;
}

-- `now` is what the clock says when a logger writes its next line.
module _ (now : JsonEventLogger → String) (dumps : LogRecord → String) where
  -- `JsonEventLogger.emit`
  abbrev pub emit_line : JsonEventLogger → Event → JsonEventLogger
  emit_line l e = record l { stream = l.stream ++ dumps (log_record (now l) l.run_id e) ∷ [] }

  -- `MultiEventLogger.emit`
  abbrev pub emit_to_all : List JsonEventLogger → Event → List JsonEventLogger
  emit_to_all [] e = []
  emit_to_all (l ∷ loggers) e = emit_line l e ∷ emit_to_all loggers e

  -- The loggers after a sequence of events.
  abbrev pub emit_events : List JsonEventLogger → List Event → List JsonEventLogger
  emit_events loggers [] = loggers
  emit_events loggers (e ∷ es) = emit_events (emit_to_all loggers e) es

  -- The dict of a line says the event, under the run's id.
  pub record Says (run_id : String) (e : Event) (r : LogRecord) : Type 0 where
    pub level : r.level ≡ "INFO"
    pub run : r.run_id ≡ run_id
    pub event : r.event ≡ event_name e.payload
    pub task_id : r.task_id ≡ e.task_id
    pub state : r.state ≡ run_state_value e.state
    pub payload : r.payload ≡ e.payload

  -- Lines that are dumps of dicts that say these events, one each.
  abbrev pub AreLinesOf : String → List String → List Event → Type 0
  AreLinesOf run_id [] [] = Unit
  AreLinesOf run_id (l ∷ ls) (e ∷ es) =
      ((r : LogRecord) × (l ≡ dumps r) × Says run_id e r) × AreLinesOf run_id ls es
  AreLinesOf run_id _ _ = ⊥

  -- A logger with new lines for the events, after those that it had.
  abbrev pub HasLogged : List Event → JsonEventLogger → JsonEventLogger → Type 0
  HasLogged es l l' =
      (l'.run_id ≡ l.run_id)
      × (lines : List String) × (l'.stream ≡ l.stream ++ lines)
      × AreLinesOf l.run_id lines es

  -- The loggers of a MultiEventLogger, each with what it has logged.
  abbrev pub HaveLogged : List Event → List JsonEventLogger → List JsonEventLogger → Type 0
  HaveLogged es [] [] = Unit
  HaveLogged es (l ∷ ls) (l' ∷ ls') = HasLogged es l l' × HaveLogged es ls ls'
  HaveLogged es _ _ = ⊥

  emit_lines : JsonEventLogger → List Event → JsonEventLogger
  emit_lines l [] = l
  emit_lines l (e ∷ es) = emit_lines (emit_line l e) es

  log_record-Says :
      (timestamp run_id : String) (e : Event) → Says run_id e (log_record timestamp run_id e)
  log_record-Says timestamp run_id e = record {
    level = refl;
    run = refl;
    event = refl;
    task_id = refl;
    state = refl;
    payload = refl;
  }

  emit_lines-HasLogged : (l : JsonEventLogger) (es : List Event) → HasLogged es l (emit_lines l es)
  unfolding emit_lines
  emit_lines-HasLogged l [] = (refl, [], sym (append-nil l.stream), tt)
  emit_lines-HasLogged l (e ∷ es) =
      let line = dumps (log_record (now l) l.run_id e) in
      let (same, lines, whole, are) = emit_lines-HasLogged (emit_line l e) es in
      (
        same,
        line ∷ lines,
        whole ∙ append_assoc l.stream (line ∷ []) lines,
        ((log_record (now l) l.run_id e, refl, log_record-Says (now l) l.run_id e), are),
      )

  emit_events-cons :
      (l : JsonEventLogger) (ls : List JsonEventLogger) (es : List Event)
      → emit_events (l ∷ ls) es ≡ emit_lines l es ∷ emit_events ls es
  unfolding emit_lines
  emit_events-cons l ls [] = refl
  emit_events-cons l ls (e ∷ es) = emit_events-cons (emit_line l e) (emit_to_all ls e) es

  emit_events-nil : (es : List Event) → emit_events [] es ≡ []
  emit_events-nil [] = refl
  emit_events-nil (e ∷ es) = emit_events-nil es

  -- Every logger writes one line for each event, in the order of the events, after the lines that it
  -- had: a dump of a dict with the level INFO, the logger's own run id, and the event's name, task,
  -- state and payload.
  pub emit_events-HaveLogged :
      (loggers : List JsonEventLogger) (es : List Event)
      → HaveLogged es loggers (emit_events loggers es)
  emit_events-HaveLogged [] es = rw (emit_events-nil es) tt
  emit_events-HaveLogged (l ∷ ls) es =
      rw (emit_events-cons l ls es) (emit_lines-HasLogged l es, emit_events-HaveLogged ls es)
