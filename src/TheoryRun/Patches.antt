-- ===== src/TheoryRun/Patches.antt =====
-- The patch files of a run.
use isabelle_repl.Base.{
  splitlines_keepends, join, ◌≡◌, ◌≢◌, refl, String, ◌<>◌, Bool, true, false, none, List, [], ◌∷◌,
  string_eq, not, ◌&&◌, arith, return, raise, out_of_fuel, Outcome, if◌then◌else◌,
}
use isabelle_repl.Model.{patch_provenance, RunState}
use isabelle_repl.Records.{create}
use isabelle_repl.Snapshot.{
  Snapshot, Replacement, export_unified_diff, export_json_patch, export_patch_provenance_links,
}
use isabelle_repl.Orchestrator.State.{Parts, Orchestrator}
use isabelle_repl.Orchestrator.Recording.{append_record}
use isabelle_repl.TheoryRun.{
  Libraries, Options, OldLines, is_exported, is_empty, patch_path, patch_json_path, patch_files,
  export_patch_artifacts, export_after, run_parts, run_id_of, records_path_of, execute,
}
use isabelle_repl.TheoryRun.Rendering.{IsRendered, KeepsTexts, run_until_terminal-IsRendered}

-- No file, or what `difflib` yields for the lines of the original text and of the text of the
-- snapshot, put together with nothing between, and the entries of the snapshot in the JSON patch.
pub data ArePatch {W : Type 0} (lib : Libraries) (run_id records_path path original : String)
    (s : Orchestrator W) : List (String × String) → Type 0 where
  no_patch : ArePatch lib run_id records_path path original s []
  patch_of : ArePatch lib run_id records_path path original s (
      (
        patch_path lib run_id records_path,
        join "" (
            lib.unified_diff
              (splitlines_keepends original)
              (splitlines_keepends s.snapshot.current_text)
              ("a/" <> path)
              ("b/" <> path)
              ""),
      )
      ∷ (
        patch_json_path lib run_id records_path,
        lib.dumps_patch (record {
          format = "isabelle_repair_patch/v1";
          theory_path = path;
          entries = s.snapshot.applied_replacements;
        }),
      )
      ∷ [])

not_empty : (es : List Replacement) → is_empty es ≡ false → es ≢ []
not_empty [] h = cc
not_empty (e ∷ es) h = λ x. cc

module _ {W : Type 0} (lib : Libraries) (parts : Parts W)
    (run_id records_path path original : String) where
  patch_files-rendered :
      (s : Snapshot)
      → IsRendered path original s
      → s.applied_replacements ≢ []
      → patch_files lib run_id records_path s
        ≡ (
          patch_path lib run_id records_path,
          join "" (
              lib.unified_diff
                (splitlines_keepends original)
                (splitlines_keepends s.current_text)
                ("a/" <> path)
                ("b/" <> path)
                ""),
        )
          ∷ (
            patch_json_path lib run_id records_path,
            lib.dumps_patch (record {
              format = "isabelle_repair_patch/v1";
              theory_path = path;
              entries = s.applied_replacements;
            }),
          )
          ∷ []
  unfolding export_unified_diff export_json_patch
  patch_files-rendered s h some_entry =
      rw (h.original_text, h.theory_path, h.current_text some_entry) refl

  export_after-ArePatch :
      (r : Outcome RunState) (s : Orchestrator W)
      → IsRendered path original s.snapshot
      → let (files, end) = export_after lib parts run_id records_path r s in
        ArePatch lib run_id records_path path original end files
  unfolding export_after export_patch_artifacts append_record create
  export_after-ArePatch (raise x) s h = no_patch
  export_after-ArePatch out_of_fuel s h = no_patch
  export_after-ArePatch (return st) s h = chosen _ refl
    where
      chosen :
          (exports : Bool)
          → is_exported st && not (is_empty s.snapshot.applied_replacements) ≡ exports
          → let (files, end) =
              if◌then◌else◌ {A = List (String × String) × Orchestrator W} exports
                (
                  patch_files lib run_id records_path s.snapshot,
                  (append_record parts none
                      (patch_provenance
                        (patch_path lib run_id records_path)
                        (patch_json_path lib run_id records_path)
                        (export_patch_provenance_links s.snapshot))
                      s).1,
                )
                ([], s) in
            ArePatch lib run_id records_path path original end files
      chosen false e = no_patch
      chosen true e =
          rw
            (patch_files-rendered s.snapshot h
              (not_empty s.snapshot.applied_replacements (ground (arith, e))))
            patch_of

module _ {W : Type 0} (lib : Libraries) (old : OldLines) (behind : Parts W)
    (theory_path theory_text : String) (options : Options) (world : W) where
  -- What a run writes, if the localizer leaves the patch entries and the texts alone: nothing, or the
  -- pieces that `difflib` yields for the lines of the text that the run was given and of the text of
  -- its snapshot, with the theory's path in both file names, put together with nothing between, and the JSON patch with all entries of the snapshot.
  pub execute-ArePatch :
      KeepsTexts (run_parts lib old behind theory_path theory_text options)
      → let e = execute lib old behind theory_path theory_text options world in
        ArePatch lib
          (run_id_of lib old behind theory_path theory_text options)
          (records_path_of lib old behind theory_path theory_text options)
          theory_path
          theory_text
          e.run
          e.files
  unfolding execute create
  execute-ArePatch localizer =
      export_after-ArePatch lib (run_parts lib old behind theory_path theory_text options) _ _
        theory_path theory_text _ _
        (run_until_terminal-IsRendered (run_parts lib old behind theory_path theory_text options)
          theory_path theory_text 3 options.max_steps _ localizer
          (record {
            theory_path = refl;
            original_text = refl;
            current_text = λ some_entry. absurd (some_entry refl);
          }))
