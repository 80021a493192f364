-- ===== src/Orchestrator/Integration.antt =====
-- `integrate_artifact` in one step: the state that it leaves, or the exception of a task with no line.
use isabelle_repl.Base.{
  suc, ℤ, ◌≡◌, String, none, some, List, [], ◌∷◌, ◌++◌, raise, return, value_error, ◌>>=◌,
  if◌then◌else◌, Bool-cases, inl, inr,
}
use isabelle_repl.Model.{ArtifactKind, TaskSpec, TaskResult, RunRecord, artifact}
use isabelle_repl.Records.{create, append_all}
use isabelle_repl.Snapshot.{
  Snapshot, apply_artifact, apply_artifact_at, attach_artifact_record_id, to_metadata,
}
use isabelle_repl.Orchestrator.State.{Parts, Orchestrator, Event, artifact_applied, emit}
use isabelle_repl.Orchestrator.Recording.{append_record, record_artifact, summary}
use isabelle_repl.Orchestrator.Contexts.{command_line_for_task}
use isabelle_repl.Orchestrator.Reviews.{integrate_artifact}

module _ {W : Type 0} (parts : Parts W) (spec : TaskSpec) (r : TaskResult) (kind : ArtifactKind)
    (text : String) (s : Orchestrator W) where
  -- The events after the artifact's own.
  abbrev applied_events : List Event
  applied_events =
      if parts.has_logger
      then s.events
        ++ (record {
          payload = artifact_applied kind text;
          task_id = some r.task_id;
          state = s.state;
        })
          ∷ []
      else s.events

  -- The snapshot with the new replacement.
  abbrev pub patched : ℤ → Snapshot
  patched line =
      apply_artifact_at kind text (some r.task_id) line (some spec.task.block_text) s.snapshot

  -- The record of the artifact.
  abbrev pub artifact_record : ℤ → RunRecord
  artifact_record line =
      (create parts.stamps s.record_factory (some r.task_id) (
        artifact r.artifact_kind r.artifact_text r.attempted_candidates
          (summary r (to_metadata (patched line))))).0

  -- The state after the artifact is integrated at a line.
  abbrev pub integrated : ℤ → Orchestrator W
  integrated line = record s {
    snapshot = attach_artifact_record_id r.task_id (artifact_record line).record_id (patched line);
    record_factory = record (s.record_factory) { seq = suc s.record_factory.seq };
    record_store = append_all parts.dumps_record s.record_store (artifact_record line);
    records = s.records ++ artifact_record line ∷ [];
    applied_artifact_task_ids = r.task_id ∷ s.applied_artifact_task_ids;
    events = applied_events;
  }

  -- For a task with a line, the artifact gets a replacement at that line, one record, its task's id
  -- among the applied ones, and one event if there is a logger; nothing else of the run changes, and
  -- the new record's id stands in the last replacement of the task.
  pub integrate_artifact-some :
      (line : ℤ)
      → command_line_for_task spec ≡ some line
      → integrate_artifact parts spec r kind text s ≡ (return tt, integrated line)
  unfolding integrate_artifact ◌>>=◌ apply_artifact emit record_artifact append_record create
  integrate_artifact-some line h = elim (Bool-cases parts.has_logger) [
    | inl logs ↦ rw (h, logs)
    | inr silent ↦ rw (h, silent)
  ]

  pub integrate_artifact-none :
      command_line_for_task spec ≡ none
      → integrate_artifact parts spec r kind text s
        ≡ (raise (value_error "command_line is required for patchable artifacts"), s)
  unfolding integrate_artifact ◌>>=◌ apply_artifact
  integrate_artifact-none h = rw h
