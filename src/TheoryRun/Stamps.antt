-- ===== src/TheoryRun/Stamps.antt =====
-- The version and the run id of the records of a whole run.
use isabelle_repl.Base.{◌≡◌, refl, String, none, All}
use isabelle_repl.Model.{patch_provenance}
use isabelle_repl.Records.{create}
use isabelle_repl.Orchestrator.State.{Parts}
use isabelle_repl.Orchestrator.Invariants.Stamped.{
  HasStamp, IsStamped, append_record-IsStamped, run_until_terminal-IsStamped,
}
use isabelle_repl.TheoryRun.{Libraries, Options, OldLines, execute, resolved_run_id}
use isabelle_repl.TheoryRun.Laws.{executed, its_parts, export_after-keeps}

module _ {W : Type 0} (lib : Libraries) (old : OldLines) (behind : Parts W)
    (theory_path theory_text : String) (options : Options) (world : W) where
  -- With a factory of its own, every record of a run, from the run's metadata to the provenance of its
  -- patch, has the schema version v1.5 and the id of the run.
  pub execute-IsStamped :
      options.record_factory ≡ none
      → All
          (HasStamp "v1.5" (resolved_run_id lib options.run_id))
          (executed lib old behind theory_path theory_text options world).run.records
  unfolding execute create
  execute-IsStamped own =
      let parts = its_parts lib old behind theory_path theory_text options world in
      let run_id = resolved_run_id lib options.run_id in
      (export_after-keeps lib parts _ _ (IsStamped "v1.5" run_id) _ _
        (λ d j links. append_record-IsStamped parts "v1.5" run_id none (patch_provenance d j links))
        (run_until_terminal-IsStamped parts "v1.5" run_id 3 options.max_steps _ (
          rw own (record {
            records = (record { schema_version = refl; theory_run_id = refl }, tt);
            schema_version = refl;
            theory_run_id = refl;
          })))).records
