-- ===== src/RepairOnce/Patches.antt =====
-- The patch of a run with the library's own parts.
use isabelle_repl.Base.{if◌then◌else◌, [], ◌∷◌, ◌≡◌, ap, String, not, ◌&&◌, map}
use isabelle_repl.Policy.{PolicyConfig}
use isabelle_repl.Client.{Stub}
use isabelle_repl.Localizer.Laws.{next_task-keeps_patches, next_task-keeps_path}
use isabelle_repl.Snapshot.{Replacement}
use isabelle_repl.Orchestrator.State.{Parts}
use isabelle_repl.TheoryRun.{Execution, run_parts, resolved_run_id, resolved_records_path}
use isabelle_repl.TheoryRun.Rendering.{KeepsTexts}
use isabelle_repl.TheoryRun.Patches.{ArePatch, execute-ArePatch}
use isabelle_repl.TheoryRun.Provenance.{patch_links, execute-links}
use isabelle_repl.TheoryRun.Links.{KeepsEntries, artifact_links}
use isabelle_repl.TheoryRun.Laws.{its_parts, is_nil, exported_outcome, execute-files}
use isabelle_repl.RepairOnce.{
  ReplWorld, localizer_of, repl_parts, Arguments, Host, approving_hook, Paths, settings_of,
  options_of, execution_of, new_world,
}

module _ {W : Type 0} (stub : Stub W) (host : Host) (args : Arguments) (paths : Paths)
    (session_id : String) (config : PolicyConfig) (text : String) (server : W) where
  abbrev script_parts : Parts (ReplWorld W)
  script_parts =
      its_parts host.libraries host.old
        (repl_parts (settings_of stub host args paths session_id) host.stamps host.iterate config
          approving_hook)
        paths.theory_file text (options_of stub host args) (new_world server)

  script-KeepsEntries : KeepsEntries script_parts
  script-KeepsEntries s =
      (next_task-keeps_patches (settings_of stub host args paths session_id)
        (localizer_of s.snapshot s.world)).0

  abbrev scripted : Execution (ReplWorld W)
  scripted = execution_of stub host args paths session_id config text server

  -- With the library's localizer, engine, policy gate and hook, the files of the patch are written
  -- exactly when the run returned `completed` or `finished` and an artifact was applied; then the
  -- records have one provenance record of a patch, which lists the tasks and the ids of the run's
  -- artifact records in their order, and else none.
  pub execution_of-patches :
      (is_nil scripted.files
        ≡ not (
            exported_outcome scripted.outcome
            && not (is_nil scripted.run.applied_artifact_task_ids)))
      × (patch_links scripted.run.records
          ≡ (if is_nil scripted.files then [] else artifact_links scripted.run.records ∷ []))
  execution_of-patches = (
    execute-files host.libraries host.old _ paths.theory_file text (options_of stub host args)
        (new_world server) (λ s. ap (map (λ (e : Replacement). e.task_id)) (script-KeepsEntries s)),
    execute-links host.libraries host.old _ paths.theory_file text (options_of stub host args)
        (new_world server) script-KeepsEntries,
  )

  script-KeepsTexts : KeepsTexts (
      run_parts host.libraries host.old
        (repl_parts
          (settings_of stub host args paths session_id)
          host.stamps
          host.iterate
          config
          approving_hook)
        paths.theory_file
        text
        (options_of stub host args))
  script-KeepsTexts s =
      let settings = settings_of stub host args paths session_id in
      let (entries, original_text, current_text) =
        next_task-keeps_patches settings (localizer_of s.snapshot s.world) in
      (
        entries,
        original_text,
        current_text,
        next_task-keeps_path settings (localizer_of s.snapshot s.world),
      )

  -- What the script's run writes: nothing, or the pieces that `difflib` yields for the lines of the
  -- theory's text and of the text of its snapshot, under the theory's path, put together with nothing
  -- between, and the JSON patch with all entries of the snapshot.
  pub execution_of-ArePatch :
      let run_id = resolved_run_id host.libraries (options_of stub host args).run_id in
      ArePatch host.libraries run_id
        (resolved_records_path host.libraries (options_of stub host args).records_path run_id)
        paths.theory_file
        text
        scripted.run
        scripted.files
  execution_of-ArePatch =
      execute-ArePatch host.libraries host.old
        (repl_parts (settings_of stub host args paths session_id) host.stamps host.iterate config
          approving_hook)
        paths.theory_file text (options_of stub host args) (new_world server) script-KeepsTexts
