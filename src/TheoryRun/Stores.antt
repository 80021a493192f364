-- ===== src/TheoryRun/Stores.antt =====
-- What the stores of a run hold.
use isabelle_repl.Base.{
  ℕ, ℤ, ◌≡◌, refl, ap, ◌∙◌, String, Option, none, List, [], ◌∷◌, ◌++◌, map, Keeps, ◌>>=◌,
  Option-cases, inl, inr,
}
use isabelle_repl.Model.{
  RunRecord, RecordPayload, patch_provenance, TaskSpec, TaskResult, ArtifactKind,
}
use isabelle_repl.Records.{
  RecordStore, memory, jsonl, list_records, append_all, append_records, append_records-agree,
  record_line, create,
}
use isabelle_repl.Orchestrator.State.{Parts, Orchestrator}
use isabelle_repl.Orchestrator.Recording.{append_record, record_provenance}
use isabelle_repl.Orchestrator.Contexts.{command_line_for_task}
use isabelle_repl.Orchestrator.Reviews.{count_accepted, integrate_artifact}
use isabelle_repl.Orchestrator.Loop.{run_until_terminal}
use isabelle_repl.Orchestrator.Integration.{
  artifact_record, integrate_artifact-some, integrate_artifact-none,
}
use isabelle_repl.Orchestrator.Frame.{IsFrame}
use isabelle_repl.Orchestrator.Frame.Rounds.{run_until_terminal-Keeps}
use isabelle_repl.TheoryRun.{
  Libraries, Options, OldLines, execute, records_path_of, resolved_store, returned_store,
}
use isabelle_repl.TheoryRun.Laws.{executed, its_parts, export_after-keeps}

append_records-snoc :
    {W : Type 0} (parts : Parts W) (stores : List RecordStore) (rs : List RunRecord) (r : RunRecord)
    → append_records parts.dumps_record stores (rs ++ r ∷ [])
      ≡ append_all parts.dumps_record (append_records parts.dumps_record stores rs) r
append_records-snoc parts stores [] r = refl
append_records-snoc parts stores (x ∷ rs) r =
    append_records-snoc parts (append_all parts.dumps_record stores x) rs r

module _ {W : Type 0} (parts : Parts W) (stores : List RecordStore) where
  -- The stores that the run started with, and all its records after what they held.
  abbrev IsStored : Orchestrator W → Type 0
  IsStored s = s.record_store ≡ append_records parts.dumps_record stores s.records

  stored-snoc :
      (s : Orchestrator W) (r : RunRecord)
      → IsStored s
      → append_all parts.dumps_record s.record_store r
        ≡ append_records parts.dumps_record stores (s.records ++ r ∷ [])
  stored-snoc s r h = cc (h, append_records-snoc parts stores s.records r)

  append_record-IsStored :
      (task_id : Option String) (payload : RecordPayload)
      → Keeps IsStored (append_record parts task_id payload)
  unfolding append_record create
  append_record-IsStored task_id payload = record { at = λ s h. stored-snoc s _ h }

  count_accepted-IsStored : (task_id : String) → Keeps IsStored (count_accepted parts task_id)
  unfolding count_accepted record_provenance append_record create ◌>>=◌
  count_accepted-IsStored task_id = record { at = λ s h. stored-snoc s _ h }

  integrate_artifact-IsStored :
      (spec : TaskSpec) (r : TaskResult) (kind : ArtifactKind) (text : String) (s : Orchestrator W)
      → IsStored s
      → IsStored (integrate_artifact parts spec r kind text s).1
  unfolding create
  integrate_artifact-IsStored spec r kind text s h =
      elim (Option-cases (command_line_for_task spec)) [
        | inl e ↦ rw (integrate_artifact-none parts spec r kind text s e) h
        | inr (line, e) ↦
            rw (integrate_artifact-some parts spec r kind text s line e)
              (stored-snoc s (artifact_record parts spec r kind text s line) h)
      ]

  IsStored-frame : IsFrame parts IsStored
  IsStored-frame = record {
    phase = λ s st pending reason h. h;
    result = λ s r h. h;
    event = λ s es h. h;
    outside = λ s w h. h;
    append = λ task_id payload h. append_record-IsStored task_id payload;
    accept = λ task_id s continued. (count_accepted-IsStored task_id).at s;
    integrate = λ spec r kind text s new h. integrate_artifact-IsStored spec r kind text s h;
  }

  run_until_terminal-IsStored :
      (fuel : ℕ) (max_steps : ℤ) (s : Orchestrator W)
      → IsStored s
      → IsStored (run_until_terminal parts fuel max_steps s).1
  run_until_terminal-IsStored fuel max_steps =
      (run_until_terminal-Keeps parts IsStored-frame (record { at = λ s h. h }) fuel max_steps).at

module _ {W : Type 0} (lib : Libraries) (old : OldLines) (behind : Parts W)
    (theory_path theory_text : String) (options : Options) (world : W) where
  execute-IsStored :
      let e = executed lib old behind theory_path theory_text options world in
      e.stores
      ≡ append_records lib.dumps_record
          (resolved_store old
            (records_path_of lib old behind theory_path theory_text options)
            options.record_store)
          e.run.records
  unfolding execute create
  execute-IsStored =
      let parts = its_parts lib old behind theory_path theory_text options world in
      let stores =
        resolved_store old (records_path_of lib old behind theory_path theory_text options)
          options.record_store in
      export_after-keeps lib parts _ _ (IsStored parts stores) _ _
        (λ d j links. append_record-IsStored parts stores none (patch_provenance d j links))
        (run_until_terminal-IsStored parts stores 3 options.max_steps _ refl)

  -- With its default store, a run ends with its records in the in-memory store that it returns, and
  -- with a line for each of them, in their order, at the end of the records file.
  pub execute-stores :
      options.record_store ≡ none
      → let e = executed lib old behind theory_path theory_text options world in
        (list_records (returned_store options.record_store e.stores) ≡ e.run.records)
        × (e.stores
            ≡ memory e.run.records
              ∷ jsonl (
                  old (records_path_of lib old behind theory_path theory_text options)
                  ++ map (record_line lib.dumps_record) e.run.records)
              ∷ [])
  execute-stores default =
      let path = records_path_of lib old behind theory_path theory_text options in
      let e = executed lib old behind theory_path theory_text options world in
      let stored =
        execute-IsStored
        ∙ ap
            (λ store. append_records lib.dumps_record (resolved_store old path store) e.run.records)
            default
        ∙ append_records-agree lib.dumps_record [] (old path) e.run.records in
      (
        ap (λ store. list_records (returned_store store e.stores)) default
            ∙ ap (λ stores. list_records (returned_store none stores)) stored,
        stored,
      )
