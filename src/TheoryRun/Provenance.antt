-- ===== src/TheoryRun/Provenance.antt =====
-- The provenance record of a run's patch.
use mathlib.Core.List.{map-map}
use isabelle_repl.Base.{
  ℕ, ℤ, ◌≡◌, refl, sym, ap, ◌∙◌, String, not, ◌&&◌, Option, List, [], ◌∷◌, ◌++◌, map, Outcome,
  return, raise, out_of_fuel, Keeps, ◌>>=◌, Option-cases, Bool-cases, inl, inr, if◌then◌else◌,
}
use isabelle_repl.Model.{
  RunState, RunRecord, RecordPayload, run_metadata, patch_provenance, TaskSpec, TaskResult,
  ArtifactKind, PatchLink,
}
use isabelle_repl.Records.{create}
use isabelle_repl.Snapshot.{export_patch_provenance_links}
use isabelle_repl.Orchestrator.State.{Parts, Orchestrator}
use isabelle_repl.Orchestrator.Recording.{append_record, record_provenance}
use isabelle_repl.Orchestrator.Contexts.{command_line_for_task}
use isabelle_repl.Orchestrator.Reviews.{count_accepted, integrate_artifact}
use isabelle_repl.Orchestrator.Loop.{run_until_terminal}
use isabelle_repl.Orchestrator.Integration.{
  artifact_record, integrate_artifact-some, integrate_artifact-none,
}
use isabelle_repl.Orchestrator.Frame.{IsFrame, IsOfRun}
use isabelle_repl.Orchestrator.Frame.Rounds.{run_until_terminal-Keeps}
use isabelle_repl.TheoryRun.{
  Libraries, Options, OldLines, execute, export_after, export_patch_artifacts, is_exported,
  is_empty,
}
use isabelle_repl.TheoryRun.Links.{
  Link, artifact_links, artifact_links-plain, IsLinked, KeepsEntries, run_until_terminal-IsLinked,
}
use isabelle_repl.TheoryRun.Laws.{executed, its_parts, is_nil}

abbrev pub link_of : PatchLink → Link
link_of l = (l.task_id, l.artifact_record_id)

abbrev add_patch_links : RecordPayload → List (List Link) → List (List Link)
add_patch_links (patch_provenance _ _ entries) rest = map link_of entries ∷ rest
add_patch_links _ rest = rest

-- The tasks and record ids that each provenance record of a patch lists, record by record.
abbrev pub patch_links : List RunRecord → List (List Link)
patch_links [] = []
patch_links (r ∷ rs) = add_patch_links r.payload (patch_links rs)

add_patch_links-append :
    (p : RecordPayload) (xs ys : List (List Link))
    → add_patch_links p (xs ++ ys) ≡ add_patch_links p xs ++ ys
add_patch_links-append (patch_provenance a b c) xs ys = refl
add_patch_links-append (run_metadata a b c d) xs ys = refl
add_patch_links-append _ xs ys = refl

patch_links-snoc :
    (rs : List RunRecord) (r : RunRecord)
    → patch_links (rs ++ r ∷ []) ≡ patch_links rs ++ add_patch_links r.payload []
patch_links-snoc [] r = refl
patch_links-snoc (x ∷ rs) r =
    ap (add_patch_links x.payload) (patch_links-snoc rs r)
    ∙ add_patch_links-append x.payload (patch_links rs) (add_patch_links r.payload [])

-- No patch is recorded.
abbrev pub HasNoPatch : {W : Type 0} → Orchestrator W → Type 0
HasNoPatch s = patch_links s.records ≡ []

snoc-none :
    (rs : List RunRecord) (r : RunRecord)
    → add_patch_links r.payload [] ≡ []
    → patch_links rs ≡ []
    → patch_links (rs ++ r ∷ []) ≡ []
snoc-none rs r other h = patch_links-snoc rs r ∙ cc (other, h)

add_patch_links-IsOfRun : (p : RecordPayload) → IsOfRun p → add_patch_links p [] ≡ []
add_patch_links-IsOfRun (patch_provenance a b c) h = absurd h
add_patch_links-IsOfRun (run_metadata a b c d) h = refl
add_patch_links-IsOfRun _ h = refl

module _ {W : Type 0} (parts : Parts W) where
  append_record-HasNoPatch :
      (task_id : Option String) (payload : RecordPayload)
      → IsOfRun payload
      → Keeps HasNoPatch (append_record parts task_id payload)
  unfolding append_record create
  append_record-HasNoPatch task_id payload h = record {
    at = λ s none_yet. snoc-none s.records _ (add_patch_links-IsOfRun payload h) none_yet;
  }

  count_accepted-HasNoPatch : (task_id : String) → Keeps HasNoPatch (count_accepted parts task_id)
  unfolding count_accepted record_provenance append_record create ◌>>=◌
  count_accepted-HasNoPatch task_id = record {
    at = λ s none_yet. snoc-none s.records _ refl none_yet;
  }

  integrate_artifact-HasNoPatch :
      (spec : TaskSpec) (r : TaskResult) (kind : ArtifactKind) (text : String) (s : Orchestrator W)
      → HasNoPatch s
      → HasNoPatch (integrate_artifact parts spec r kind text s).1
  unfolding create
  integrate_artifact-HasNoPatch spec r kind text s h =
      elim (Option-cases (command_line_for_task spec)) [
        | inl e ↦ rw (integrate_artifact-none parts spec r kind text s e) h
        | inr (line, e) ↦
            rw (integrate_artifact-some parts spec r kind text s line e)
              (snoc-none s.records (artifact_record parts spec r kind text s line) refl h)
      ]

  HasNoPatch-frame : IsFrame parts HasNoPatch
  HasNoPatch-frame = record {
    phase = λ s st pending reason h. h;
    result = λ s r h. h;
    event = λ s es h. h;
    outside = λ s w h. h;
    append = append_record-HasNoPatch;
    accept = λ task_id s continued. (count_accepted-HasNoPatch task_id).at s;
    integrate = λ spec r kind text s new h. integrate_artifact-HasNoPatch spec r kind text s h;
  }

  run_until_terminal-HasNoPatch :
      (fuel : ℕ) (max_steps : ℤ) (s : Orchestrator W)
      → HasNoPatch s
      → HasNoPatch (run_until_terminal parts fuel max_steps s).1
  run_until_terminal-HasNoPatch fuel max_steps =
      (run_until_terminal-Keeps parts HasNoPatch-frame (record { at = λ s h. h }) fuel max_steps).at

exported-links :
    {W : Type 0} (s : Orchestrator W)
    → IsLinked s
    → map link_of (export_patch_provenance_links s.snapshot) ≡ artifact_links s.records
unfolding export_patch_provenance_links
exported-links s h = map-map link_of _ s.snapshot.applied_replacements ∙ h.links

module _ {W : Type 0} (lib : Libraries) (parts : Parts W) (run_id records_path : String) where
  export_after-links :
      (r : Outcome RunState) (s : Orchestrator W)
      → IsLinked s
      → HasNoPatch s
      → let (files, end) = export_after lib parts run_id records_path r s in
        patch_links end.records ≡ (if is_nil files then [] else artifact_links end.records ∷ [])
  unfolding export_after export_patch_artifacts append_record create
  export_after-links (raise e) s linked h = h
  export_after-links out_of_fuel s linked h = h
  export_after-links (return st) s linked h =
      elim (Bool-cases (is_exported st && not (is_empty s.snapshot.applied_replacements))) [
        | inl e ↦ rw e (
            patch_links-snoc s.records _
            ∙ ap (λ l. l ++ map link_of (export_patch_provenance_links s.snapshot) ∷ []) h
            ∙ ap (λ l. l ∷ [])
                (exported-links s linked ∙ sym (artifact_links-plain s.records _ tt)))
        | inr e ↦ rw e h
      ]

module _ {W : Type 0} (lib : Libraries) (old : OldLines) (behind : Parts W)
    (theory_path theory_text : String) (options : Options) (world : W) where
  -- If the localizer leaves the patch entries alone, the records of a run have one provenance record
  -- of a patch where the files of the patch are written, and none where they are not; and that record
  -- lists the tasks and the ids of the run's artifact records, in their order.
  pub execute-links :
      KeepsEntries (its_parts lib old behind theory_path theory_text options world)
      → let e = executed lib old behind theory_path theory_text options world in
        patch_links e.run.records
        ≡ (if is_nil e.files then [] else artifact_links e.run.records ∷ [])
  unfolding execute create
  execute-links localizer =
      let parts = its_parts lib old behind theory_path theory_text options world in
      export_after-links lib parts _ _ _ _
        (run_until_terminal-IsLinked parts 3 options.max_steps _ localizer
          (record { links = refl }))
        (run_until_terminal-HasNoPatch parts 3 options.max_steps _ refl)
