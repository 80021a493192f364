-- ===== src/TheoryRun/Order.antt =====
-- The order of the records of a whole run.
use isabelle_repl.Base.{String, none}
use isabelle_repl.Model.{patch_provenance}
use isabelle_repl.Records.{create}
use isabelle_repl.Orchestrator.State.{Parts}
use isabelle_repl.Orchestrator.Invariants.Ordered.{
  IsOrdered, Ordered, append_record-IsOrdered, run_until_terminal-IsOrdered,
}
use isabelle_repl.TheoryRun.{Libraries, Options, OldLines, execute}
use isabelle_repl.TheoryRun.Laws.{executed, its_parts, export_after-keeps}

module _ {W : Type 0} (lib : Libraries) (old : OldLines) (behind : Parts W)
    (theory_path theory_text : String) (options : Options) (world : W) where
  -- In every run, however it ends, the provenance record of an accepted artifact stands directly after
  -- the record of a continuation of the same task, and this continuation is not a stop.
  pub execute-IsOrdered :
      IsOrdered none (executed lib old behind theory_path theory_text options world).run.records
  unfolding execute create
  execute-IsOrdered =
      let parts = its_parts lib old behind theory_path theory_text options world in
      export_after-keeps lib parts _ _ (Ordered parts) _ _
        (λ d j links. append_record-IsOrdered parts none (patch_provenance d j links) tt)
        (run_until_terminal-IsOrdered parts 3 options.max_steps _ (tt, tt))
