-- ===== src/Orchestrator/Invariants/Entries.antt =====
-- What the integration of an artifact leaves in the snapshot and in the records.
use isabelle_repl.Base.{
  ℤ, suc, ◌≡◌, refl, return, String, ◌<>◌, none, some, [], ◌∷◌, ◌++◌, length, decimal,
}
use isabelle_repl.Model.{TaskSpec, TaskResult, ArtifactKind, RunRecord}
use isabelle_repl.Records.{create}
use isabelle_repl.Snapshot.{
  Replacement, apply_artifact_at, attach_artifact_record_id, render_patched_text,
}
use isabelle_repl.Snapshot.Tasks.{attach_first-last}
use isabelle_repl.Orchestrator.State.{Parts, Orchestrator}
use isabelle_repl.Orchestrator.Contexts.{command_line_for_task}
use isabelle_repl.Orchestrator.Reviews.{integrate_artifact}
use isabelle_repl.Orchestrator.Integration.{artifact_record, integrate_artifact-some}

-- The run after an artifact is integrated at a line: one record of the artifact, and one patch entry
-- with the artifact and that record's id.
pub record HasEntry {W : Type 0} (spec : TaskSpec) (r : TaskResult) (kind : ArtifactKind)
    (text : String) (line : ℤ) (s end : Orchestrator W) : Type 0 where
  pub new : RunRecord
  pub entry : Replacement
  pub records : end.records ≡ s.records ++ new ∷ []
  pub replacements :
      end.snapshot.applied_replacements ≡ s.snapshot.applied_replacements ++ entry ∷ []
  pub of_task : new.task_id ≡ some r.task_id
  pub entry_id :
      entry.patch_entry_id ≡ "pe-" <> decimal (suc (length s.snapshot.applied_replacements))
  pub entry_task : entry.task_id ≡ some r.task_id
  pub entry_line : entry.command_line ≡ line
  pub entry_kind : entry.artifact_kind ≡ kind
  pub entry_text : entry.replacement_text ≡ text
  pub entry_original : entry.original_text ≡ some spec.task.block_text
  pub entry_record : entry.artifact_record_id ≡ some new.record_id
  pub rendered :
      end.snapshot.current_text
      ≡ render_patched_text s.snapshot.original_text
          (s.snapshot.applied_replacements ++ record entry { artifact_record_id = none } ∷ [])
  pub applied : end.applied_artifact_task_ids ≡ r.task_id ∷ s.applied_artifact_task_ids

module _ {W : Type 0} (parts : Parts W) (spec : TaskSpec) (r : TaskResult) (kind : ArtifactKind)
    (text : String) (s : Orchestrator W) where
  -- For a task with a line, integrating an artifact returns, and leaves one new record, of the task,
  -- and one new patch entry behind the others: under the next entry id, with the task, the line, the
  -- kind, the text, the text of the task's block and the id of the new record. The current text is
  -- rendered from the original text and all the entries, and the task is the last one applied.
  pub integrate_artifact-HasEntry :
      (line : ℤ)
      → command_line_for_task spec ≡ some line
      → let (outcome, end) = integrate_artifact parts spec r kind text s in
        (outcome ≡ return tt) × HasEntry spec r kind text line s end
  unfolding create attach_artifact_record_id apply_artifact_at
  integrate_artifact-HasEntry line h =
      rw (integrate_artifact-some parts spec r kind text s line h) (
        refl,
        record {
          new = artifact_record parts spec r kind text s line;
          entry = _;
          records = refl;
          replacements =
              attach_first-last r.task_id (artifact_record parts spec r kind text s line).record_id
                s.snapshot.applied_replacements _ refl refl;
          of_task = refl;
          entry_id = refl;
          entry_task = refl;
          entry_line = refl;
          entry_kind = refl;
          entry_text = refl;
          entry_original = refl;
          entry_record = refl;
          rendered = refl;
          applied = refl;
        },
      )
