-- ===== src/TheoryRun/Links.antt =====
-- The patch entries and the artifact records of a run name each other.
use mathlib.Core.List.{map-append}
use isabelle_repl.Base.{
  ℕ, ◌>>=◌, ◌≡◌, refl, sym, ap, ◌∙◌, String, Option, some, List, [], ◌∷◌, ◌++◌, map, ℤ, Keeps,
  Option-cases, inl, inr, false, contains, string_eq, option_eq,
}
use isabelle_repl.Model.{
  RunRecord, RecordPayload, run_metadata, task, artifact, policy_decision, intervention,
  continuation, provenance, patch_provenance, terminal, TaskSpec, TaskResult, ArtifactKind,
}
use isabelle_repl.Records.{create}
use isabelle_repl.Snapshot.{Snapshot, Replacement, apply_artifact_at, attach_artifact_record_id}
use isabelle_repl.Snapshot.Tasks.{attach_first-last}
use isabelle_repl.Orchestrator.State.{Parts, Orchestrator}
use isabelle_repl.Orchestrator.Recording.{append_record, record_provenance}
use isabelle_repl.Orchestrator.Contexts.{command_line_for_task}
use isabelle_repl.Orchestrator.Reviews.{count_accepted, integrate_artifact}
use isabelle_repl.Orchestrator.Loop.{take_next, run_until_terminal}
use isabelle_repl.Orchestrator.Integration.{
  artifact_record, integrate_artifact-some, integrate_artifact-none,
}
use isabelle_repl.Orchestrator.Frame.{IsOfRun-IsPlain, IsFrame, IsPlain}
use isabelle_repl.Orchestrator.Frame.Rounds.{run_until_terminal-Keeps}

-- A task id with a record id.
abbrev pub Link : Type 0
Link = Option String × Option String

abbrev pub entry_link : Replacement → Link
entry_link e = (e.task_id, e.artifact_record_id)

abbrev record_link : RunRecord → RecordPayload → List Link → List Link
record_link r (artifact _ _ _ _) links = (r.task_id, some r.record_id) ∷ links
record_link r _ links = links

-- The tasks and ids of the artifact records, in order.
abbrev pub artifact_links : List RunRecord → List Link
artifact_links [] = []
artifact_links (r ∷ rs) = record_link r r.payload (artifact_links rs)

-- Each patch entry has the task and the id of its own artifact record, and the entries stand in the
-- order of the records.
pub record IsLinked {W : Type 0} (s : Orchestrator W) : Type 0 where
  pub links : map entry_link s.snapshot.applied_replacements ≡ artifact_links s.records

-- The new entry is the last one, and the id goes to it.
links-attach_apply :
    (kind : ArtifactKind) (text task_id record_id : String) (line : ℤ) (original : Option String)
    (s : Snapshot)
    → map entry_link
        (attach_artifact_record_id task_id record_id
          (apply_artifact_at kind text (some task_id) line original s)).applied_replacements
      ≡ map entry_link s.applied_replacements ++ (some task_id, some record_id) ∷ []
unfolding attach_artifact_record_id apply_artifact_at
links-attach_apply kind text task_id record_id line original s =
    ap (map entry_link) (attach_first-last task_id record_id s.applied_replacements _ refl refl)
    ∙ map-append entry_link s.applied_replacements _

artifact_links-other :
    (rs : List RunRecord) (r : RunRecord)
    → record_link r r.payload [] ≡ []
    → artifact_links (rs ++ r ∷ []) ≡ artifact_links rs
artifact_links-other [] r h = h
artifact_links-other (x ∷ rs) r h = ap (record_link x x.payload) (artifact_links-other rs r h)

record_link-plain : (r : RunRecord) (p : RecordPayload) → IsPlain p → record_link r p [] ≡ []
record_link-plain r (artifact a b c d) h = absurd h
record_link-plain r provenance h = absurd h
record_link-plain r (run_metadata a b c d) h = refl
record_link-plain r (task a b c d) h = refl
record_link-plain r (policy_decision a b c d) h = refl
record_link-plain r (intervention a b c d) h = refl
record_link-plain r (continuation a) h = refl
record_link-plain r (patch_provenance a b c) h = refl
record_link-plain r (terminal a b c d e) h = refl

pub artifact_links-plain :
    (rs : List RunRecord) (r : RunRecord)
    → IsPlain r.payload
    → artifact_links (rs ++ r ∷ []) ≡ artifact_links rs
artifact_links-plain rs r h = artifact_links-other rs r (record_link-plain r r.payload h)

artifact_links-new :
    (rs : List RunRecord) (r : RunRecord)
    → record_link r r.payload [] ≡ (r.task_id, some r.record_id) ∷ []
    → artifact_links (rs ++ r ∷ []) ≡ artifact_links rs ++ (r.task_id, some r.record_id) ∷ []
artifact_links-new [] r h = h
artifact_links-new (x ∷ rs) r h =
    ap (record_link x x.payload) (artifact_links-new rs r h) ∙ push x.payload
  where
    push :
        (p : RecordPayload)
        → record_link x p (artifact_links rs ++ (r.task_id, some r.record_id) ∷ [])
          ≡ record_link x p (artifact_links rs) ++ (r.task_id, some r.record_id) ∷ []
    push (artifact a b c d) = refl
    push _ = refl

module _ {W : Type 0} (parts : Parts W) where
  pub append_record-IsLinked :
      (task_id : Option String) (payload : RecordPayload)
      → IsPlain payload
      → Keeps IsLinked (append_record parts task_id payload)
  unfolding append_record create
  append_record-IsLinked task_id payload plain = record {
    at = λ s h. record { links = h.links ∙ sym (artifact_links-plain s.records _ plain) };
  }

  count_accepted-IsLinked : (task_id : String) → Keeps IsLinked (count_accepted parts task_id)
  unfolding count_accepted record_provenance append_record create ◌>>=◌
  count_accepted-IsLinked task_id = record {
    at = λ s h. record { links = h.links ∙ sym (artifact_links-other s.records _ refl) };
  }

  integrate_artifact-IsLinked :
      (spec : TaskSpec) (r : TaskResult) (kind : ArtifactKind) (text : String) (s : Orchestrator W)
      → contains s.applied_artifact_task_ids r.task_id ≡ false
      → IsLinked s
      → IsLinked (integrate_artifact parts spec r kind text s).1
  unfolding create
  integrate_artifact-IsLinked spec r kind text s new h =
      elim (Option-cases (command_line_for_task spec)) [
        | inl e ↦ rw (integrate_artifact-none parts spec r kind text s e) h
        | inr (line, e) ↦ rw (integrate_artifact-some parts spec r kind text s line e) (record {
          links =
              links-attach_apply kind text r.task_id _ line (some spec.task.block_text) s.snapshot
              ∙ ap
                  (λ l.
                    l
                    ++ (
                      some r.task_id,
                      some (artifact_record parts spec r kind text s line).record_id,
                    )
                      ∷ [])
                  h.links
              ∙ sym (
                  artifact_links-new s.records (artifact_record parts spec r kind text s line)
                    refl);
        })
      ]

  IsLinked-frame : IsFrame parts IsLinked
  IsLinked-frame = record {
    phase = λ s st pending reason h. record { links = h.links };
    result = λ s r h. record { links = h.links };
    event = λ s es h. record { links = h.links };
    outside = λ s w h. record { links = h.links };
    append =
        λ task_id payload h. append_record-IsLinked task_id payload (IsOfRun-IsPlain payload h);
    accept = λ task_id s continued. (count_accepted-IsLinked task_id).at s;
    integrate = integrate_artifact-IsLinked;
  }

  -- The localizer leaves the patch entries of the snapshot as they are.
  abbrev pub KeepsEntries : Type 0
  KeepsEntries =
      (s : Orchestrator W)
      → (take_next parts s).1.snapshot.applied_replacements ≡ s.snapshot.applied_replacements

  -- With a localizer that leaves the patch entries alone, a run from a linked state ends in one: its
  -- patch entries, in order, name the tasks and the ids of its artifact records, in order.
  pub run_until_terminal-IsLinked :
      (fuel : ℕ) (max_steps : ℤ) (s : Orchestrator W)
      → KeepsEntries
      → IsLinked s
      → IsLinked (run_until_terminal parts fuel max_steps s).1
  run_until_terminal-IsLinked fuel max_steps s localizer =
      (run_until_terminal-Keeps parts IsLinked-frame
          (record { at = λ s h. record { links = ap (map entry_link) (localizer s) ∙ h.links } })
          fuel max_steps).at
        s
