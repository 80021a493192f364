-- ===== src/TheoryRun/Rendering.antt =====
-- The text of the snapshot of a run.
use mathlib.Core.List.{foldl-append}
use isabelle_repl.Base.{
  ℕ, ◌≡◌, ◌≢◌, refl, sym, ap, ◌∙◌, ℤ, String, false, Option, some, List, [], ◌∷◌, ◌++◌, Keeps,
  Option-cases, inl, inr, contains, string_eq, ◌>>=◌,
}
use isabelle_repl.Model.{RecordPayload, TaskSpec, TaskResult, ArtifactKind}
use isabelle_repl.Records.{create}
use isabelle_repl.Snapshot.{
  Snapshot, Replacement, apply_artifact_at, attach_artifact_record_id, render_patched_text,
  patched_lines, add_entry,
}
use isabelle_repl.Snapshot.Tasks.{attach_first-last}
use isabelle_repl.Orchestrator.State.{Parts, Orchestrator}
use isabelle_repl.Orchestrator.Recording.{append_record, record_provenance}
use isabelle_repl.Orchestrator.Contexts.{command_line_for_task}
use isabelle_repl.Orchestrator.Reviews.{count_accepted, integrate_artifact}
use isabelle_repl.Orchestrator.Loop.{take_next, run_until_terminal}
use isabelle_repl.Orchestrator.Integration.{
  artifact_record, integrated, integrate_artifact-some, integrate_artifact-none,
}
use isabelle_repl.Orchestrator.Frame.{IsFrame}
use isabelle_repl.Orchestrator.Frame.Rounds.{run_until_terminal-Keeps}

-- The record id of the last entry does not change the text.
render-last :
    (original : String) (es : List Replacement) (e : Replacement) (record_id : Option String)
    → render_patched_text original (es ++ record e { artifact_record_id = record_id } ∷ [])
      ≡ render_patched_text original (es ++ e ∷ [])
unfolding render_patched_text patched_lines add_entry
render-last original es e record_id =
    rw
      (
        foldl-append add_entry [] es (record e { artifact_record_id = record_id } ∷ []),
        foldl-append add_entry [] es (e ∷ []),
      )
      refl

-- The snapshot is that of the theory `path` with the text `original`, and once an artifact is applied
-- its text is the original one with its replacements.
pub record IsRendered (path original : String) (s : Snapshot) : Type 0 where
  pub theory_path : s.theory_path ≡ path
  pub original_text : s.original_text ≡ original
  pub current_text :
      s.applied_replacements ≢ []
      → s.current_text ≡ render_patched_text original s.applied_replacements

-- The text of the snapshot after an artifact is applied and its record's id attached.
current_text-attach_apply :
    (kind : ArtifactKind) (text task_id record_id : String) (line : ℤ) (original : Option String)
    (s : Snapshot)
    → let t =
        attach_artifact_record_id task_id record_id
          (apply_artifact_at kind text (some task_id) line original s) in
      t.current_text ≡ render_patched_text s.original_text t.applied_replacements
unfolding attach_artifact_record_id apply_artifact_at
current_text-attach_apply kind text task_id record_id line original s = sym (
    ap (render_patched_text s.original_text)
      (attach_first-last task_id record_id s.applied_replacements _ refl refl)
    ∙ render-last s.original_text s.applied_replacements _ (some record_id))

module _ {W : Type 0} (parts : Parts W) where
  -- The localizer leaves the patch entries and the texts of the snapshot alone.
  abbrev pub KeepsTexts : Type 0
  KeepsTexts =
      (s : Orchestrator W)
      → let t = (take_next parts s).1.snapshot in
        (t.applied_replacements ≡ s.snapshot.applied_replacements)
        × (t.original_text ≡ s.snapshot.original_text)
        × (t.current_text ≡ s.snapshot.current_text)
        × (t.theory_path ≡ s.snapshot.theory_path)

module _ {W : Type 0} (parts : Parts W) (path original : String) where
  abbrev Rendered : Orchestrator W → Type 0
  Rendered s = IsRendered path original s.snapshot

  append_record-IsRendered :
      (task_id : Option String) (payload : RecordPayload)
      → Keeps Rendered (append_record parts task_id payload)
  unfolding append_record create
  append_record-IsRendered task_id payload = record { at = λ s h. h }

  count_accepted-IsRendered : (task_id : String) → Keeps Rendered (count_accepted parts task_id)
  unfolding count_accepted record_provenance append_record create ◌>>=◌
  count_accepted-IsRendered task_id = record { at = λ s h. h }

  integrate_artifact-IsRendered :
      (spec : TaskSpec) (r : TaskResult) (kind : ArtifactKind) (text : String) (s : Orchestrator W)
      → contains s.applied_artifact_task_ids r.task_id ≡ false
      → Rendered s
      → Rendered (integrate_artifact parts spec r kind text s).1
  unfolding create attach_artifact_record_id apply_artifact_at
  integrate_artifact-IsRendered spec r kind text s new h =
      elim (Option-cases (command_line_for_task spec)) [
        | inl e ↦ rw (integrate_artifact-none parts spec r kind text s e) h
        | inr (line, e) ↦ rw (integrate_artifact-some parts spec r kind text s line e) (record {
          theory_path = h.theory_path;
          original_text = h.original_text;
          current_text = λ _.
              current_text-attach_apply kind text r.task_id
                (artifact_record parts spec r kind text s line).record_id line
                (some spec.task.block_text) s.snapshot
              ∙ ap
                  (λ o.
                    render_patched_text o
                      (integrated parts spec r kind text s line).snapshot.applied_replacements)
                  h.original_text;
        })
      ]

  IsRendered-frame : IsFrame parts Rendered
  IsRendered-frame = record {
    phase = λ s st pending reason h. h;
    result = λ s r h. h;
    event = λ s es h. h;
    outside = λ s w h. h;
    append = λ task_id payload plain. append_record-IsRendered task_id payload;
    accept = λ task_id s continued. (count_accepted-IsRendered task_id).at s;
    integrate = integrate_artifact-IsRendered;
  }

  pub run_until_terminal-IsRendered :
      (fuel : ℕ) (max_steps : ℤ) (s : Orchestrator W)
      → KeepsTexts parts
      → Rendered s
      → Rendered (run_until_terminal parts fuel max_steps s).1
  run_until_terminal-IsRendered fuel max_steps s localizer =
      (run_until_terminal-Keeps parts IsRendered-frame
          (record {
            at = λ s h.
                let (entries, original_text, current_text, theory_path) = localizer s in
                record {
                  theory_path = theory_path ∙ h.theory_path;
                  original_text = original_text ∙ h.original_text;
                  current_text = λ some_entry.
                      current_text
                      ∙ h.current_text (λ e. some_entry (entries ∙ e))
                      ∙ ap (render_patched_text original) (sym entries);
                };
          })
          fuel max_steps).at
        s
