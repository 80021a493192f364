-- ===== src/TheoryRun/Laws.antt =====
-- What holds of a whole run: its records, their copies in the stores, and its patch.
use mathlib.Core.List.{reverse, reverse-cons}
use isabelle_repl.Base.{
  arith, String, ◌≡◌, refl, sym, ap, ◌∙◌, Bool, true, false, not, ◌&&◌, none, some, List, [], ◌∷◌,
  ◌++◌, map, Outcome, return, raise, out_of_fuel, Keeps, Bool-cases, inl, inr,
}
use isabelle_repl.Model.{
  RunState, active, awaiting_review, stopped, completed, finished, PatchLink, patch_provenance,
}
use isabelle_repl.Records.{create}
use isabelle_repl.Snapshot.{Replacement}
use isabelle_repl.Orchestrator.State.{Parts, Orchestrator}
use isabelle_repl.Orchestrator.Recording.{append_record}
use isabelle_repl.Orchestrator.Invariants.Applied.{
  IsApplied, KeepsPatches, run_until_terminal-IsApplied,
}
use isabelle_repl.Orchestrator.Invariants.Numbering.{
  IsNumbered, append_record-IsNumbered, run_until_terminal-IsNumbered,
}
use isabelle_repl.TheoryRun.{
  Libraries, Options, OldLines, Execution, execute, export_after, export_patch_artifacts, run_parts,
  is_exported, is_empty,
}

module _ {W : Type 0} (lib : Libraries) (parts : Parts W) (run_id records_path : String) where
  -- The export only appends a record.
  pub export_after-keeps :
      (P : Orchestrator W → Type 0) (r : Outcome RunState) (s : Orchestrator W)
      → ((paths_diff paths_json : String) (links : List PatchLink)
          → Keeps P (append_record parts none (patch_provenance paths_diff paths_json links)))
      → P s
      → P (export_after lib parts run_id records_path r s).1
  unfolding export_after export_patch_artifacts
  export_after-keeps P (return st) s keeps h =
      elim (Bool-cases (is_exported st && not (is_empty s.snapshot.applied_replacements))) [
        | inl e ↦ rw e ((keeps _ _ _).at s h)
        | inr e ↦ rw e h
      ]
  export_after-keeps P (raise x) s keeps h = h
  export_after-keeps P out_of_fuel s keeps h = h

abbrev pub is_nil : {A : Type 0} → List A → Bool
is_nil [] = true
is_nil (x ∷ xs) = false

is_nil-snoc : {A : Type 0} (xs : List A) (x : A) → is_nil (xs ++ x ∷ []) ≡ false
is_nil-snoc [] x = refl
is_nil-snoc (y ∷ xs) x = refl

is_nil-map : {A B : Type 0} (f : A → B) (xs : List A) → is_nil (map f xs) ≡ is_nil xs
is_nil-map f [] = refl
is_nil-map f (x ∷ xs) = refl

is_nil-reverse : {A : Type 0} (xs : List A) → is_nil (reverse xs) ≡ is_nil xs
is_nil-reverse [] = refl
is_nil-reverse (x ∷ xs) = ap is_nil (reverse-cons x xs) ∙ is_nil-snoc (reverse xs) x

is_empty-is_nil : (es : List Replacement) → is_empty es ≡ is_nil es
is_empty-is_nil [] = refl
is_empty-is_nil (e ∷ es) = refl

-- There is a patch entry exactly when an artifact is applied.
is_empty-applied :
    {W : Type 0} (s : Orchestrator W)
    → IsApplied s
    → is_empty s.snapshot.applied_replacements ≡ is_nil s.applied_artifact_task_ids
is_empty-applied s h =
    is_empty-is_nil s.snapshot.applied_replacements
    ∙ sym (is_nil-map (λ (e : Replacement). e.task_id) s.snapshot.applied_replacements)
    ∙ ap is_nil h.patches
    ∙ is_nil-map some (reverse s.applied_artifact_task_ids)
    ∙ is_nil-reverse s.applied_artifact_task_ids

-- The run returned `completed` or `finished`.
abbrev pub exported_outcome : Outcome RunState → Bool
exported_outcome (return completed) = true
exported_outcome (return finished) = true
exported_outcome _ = false

pub exported_outcome-is_exported : (st : RunState) → exported_outcome (return st) ≡ is_exported st
exported_outcome-is_exported active = refl
exported_outcome-is_exported awaiting_review = refl
exported_outcome-is_exported stopped = refl
exported_outcome-is_exported completed = refl
exported_outcome-is_exported finished = refl

module _ {W : Type 0} (lib : Libraries) (parts : Parts W) (run_id records_path : String) where
  export_after-files :
      (r : Outcome RunState) (s : Orchestrator W)
      → IsApplied s
      → is_nil (export_after lib parts run_id records_path r s).0
        ≡ not (
            exported_outcome r
            && not (
                is_nil
                  (export_after lib parts run_id records_path r s).1.applied_artifact_task_ids))
  unfolding export_after export_patch_artifacts append_record create
  export_after-files (raise e) s h = refl
  export_after-files out_of_fuel s h = refl
  export_after-files (return st) s h =
      elim (Bool-cases (is_exported st && not (is_empty s.snapshot.applied_replacements))) [
        | inl e ↦
            rw (e, sym (is_empty-applied s h), exported_outcome-is_exported st) (ground (arith, e))
        | inr e ↦
            rw (e, sym (is_empty-applied s h), exported_outcome-is_exported st) (ground (arith, e))
      ]

module _ {W : Type 0} (lib : Libraries) (old : OldLines) (behind : Parts W)
    (theory_path theory_text : String) (options : Options) (world : W) where
  abbrev pub executed : Execution W
  executed = execute lib old behind theory_path theory_text options world

  abbrev pub its_parts : Parts W
  its_parts = run_parts lib old behind theory_path theory_text options

  -- With a factory of its own, all records of a run, from the run's metadata to the provenance of its
  -- patch, are numbered 1, 2, … in the order in which they are appended.
  pub execute-IsNumbered : options.record_factory ≡ none → IsNumbered executed.run
  unfolding execute create
  execute-IsNumbered own =
      export_after-keeps lib its_parts _ _ IsNumbered _ _
        (λ d j links. append_record-IsNumbered its_parts none (patch_provenance d j links))
        (run_until_terminal-IsNumbered its_parts 3 options.max_steps _
          (rw own (record { numbers = (refl, tt); last = refl })))

  -- The files of the patch are written exactly when the run returned `completed` or `finished` and an
  -- artifact was applied, if the localizer leaves the patch entries alone.
  pub execute-files :
      KeepsPatches its_parts
      → is_nil executed.files
        ≡ not (
            exported_outcome executed.outcome
            && not (is_nil executed.run.applied_artifact_task_ids))
  unfolding execute create
  execute-files localizer = export_after-files lib its_parts _ _ _ _ (
      run_until_terminal-IsApplied its_parts 3 options.max_steps _ localizer
        (record { patches = refl; artifacts = refl; once = tt }))
