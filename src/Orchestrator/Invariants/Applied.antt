-- ===== src/Orchestrator/Invariants/Applied.antt =====
-- Each task's artifact is applied at most once, and the patch entries, the artifact records and the
-- applied task ids tell the same story.
use mathlib.Core.List.{reverse, reverse-cons, map-append}
use isabelle_repl.Base.{
  ℤ, ℕ, ◌≡◌, refl, sym, ap, ◌∙◌, String, false, Option, some, List, [], ◌∷◌, ◌++◌, map, Keeps,
  ◌>>=◌, Option-cases, inl, inr, contains, string_eq, option_eq,
}
use isabelle_repl.Model.{
  RunRecord, RecordPayload, artifact, provenance, run_metadata, TaskSpec, TaskResult, ArtifactKind,
}
use isabelle_repl.Records.{create}
use isabelle_repl.Snapshot.Tasks.{patch_tasks, patch_tasks-attach, patch_tasks-apply}
use isabelle_repl.Orchestrator.State.{Parts, Orchestrator}
use isabelle_repl.Orchestrator.Recording.{append_record, record_provenance}
use isabelle_repl.Orchestrator.Contexts.{command_line_for_task}
use isabelle_repl.Orchestrator.Reviews.{count_accepted, integrate_artifact}
use isabelle_repl.Orchestrator.Loop.{take_next, run_until_terminal}
use isabelle_repl.Orchestrator.Integration.{
  artifact_record, patched, integrate_artifact-some, integrate_artifact-none,
}
use isabelle_repl.Orchestrator.Frame.{IsOfRun-IsPlain, IsFrame, IsPlain}
use isabelle_repl.Orchestrator.Frame.Rounds.{run_until_terminal-Keeps}

abbrev artifact_of : RunRecord → RecordPayload → List (Option String) → List (Option String)
artifact_of r (artifact _ _ _ _) ids = r.task_id ∷ ids
artifact_of r _ ids = ids

-- The tasks of the artifact records, in order.
abbrev pub artifact_tasks : List RunRecord → List (Option String)
artifact_tasks [] = []
artifact_tasks (r ∷ rs) = artifact_of r r.payload (artifact_tasks rs)

abbrev pub NodupTexts : List String → Type 0
NodupTexts [] = Unit
NodupTexts (t ∷ ts) = (contains ts t ≡ false) × NodupTexts ts

-- The applied task ids, newest first, are the tasks of the patch entries and of the artifact records,
-- and none occurs twice.
pub record IsApplied {W : Type 0} (s : Orchestrator W) : Type 0 where
  pub patches : patch_tasks s.snapshot ≡ map some (reverse s.applied_artifact_task_ids)
  pub artifacts : artifact_tasks s.records ≡ map some (reverse s.applied_artifact_task_ids)
  pub once : NodupTexts s.applied_artifact_task_ids

artifact_tasks-plain :
    (rs : List RunRecord) (r : RunRecord)
    → IsPlain r.payload
    → artifact_tasks (rs ++ r ∷ []) ≡ artifact_tasks rs
artifact_tasks-plain [] r h = plain r.payload h
  where
    plain : (p : RecordPayload) → IsPlain p → artifact_of r p [] ≡ []
    plain (artifact a b c d) h = absurd h
    plain (run_metadata a b c d) h = refl
    plain _ h = refl
artifact_tasks-plain (x ∷ rs) r h = ap (artifact_of x x.payload) (artifact_tasks-plain rs r h)

artifact_tasks-provenance :
    (rs : List RunRecord) (r : RunRecord)
    → r.payload ≡ provenance
    → artifact_tasks (rs ++ r ∷ []) ≡ artifact_tasks rs
artifact_tasks-provenance [] r h = ap (λ p. artifact_of r p []) h
artifact_tasks-provenance (x ∷ rs) r h =
    ap (artifact_of x x.payload) (artifact_tasks-provenance rs r h)

artifact_tasks-snoc :
    (rs : List RunRecord) (r : RunRecord)
    → artifact_of r r.payload [] ≡ r.task_id ∷ []
    → artifact_tasks (rs ++ r ∷ []) ≡ artifact_tasks rs ++ r.task_id ∷ []
artifact_tasks-snoc [] r h = h
artifact_tasks-snoc (x ∷ rs) r h =
    ap (artifact_of x x.payload) (artifact_tasks-snoc rs r h) ∙ push x.payload
  where
    push :
        (p : RecordPayload)
        → artifact_of x p (artifact_tasks rs ++ r.task_id ∷ [])
          ≡ artifact_of x p (artifact_tasks rs) ++ r.task_id ∷ []
    push (artifact a b c d) = refl
    push _ = refl

map-some-snoc :
    (t : String) (ts : List String)
    → map some (reverse (t ∷ ts)) ≡ map some (reverse ts) ++ some t ∷ []
map-some-snoc t ts = ap (map some) (reverse-cons t ts) ∙ map-append some (reverse ts) (t ∷ [])

module _ {W : Type 0} (parts : Parts W) where
  append_record-IsApplied :
      (task_id : Option String) (payload : RecordPayload)
      → IsPlain payload
      → Keeps IsApplied (append_record parts task_id payload)
  unfolding append_record create
  append_record-IsApplied task_id payload plain = record {
    at = λ s h. record {
      patches = h.patches;
      artifacts = artifact_tasks-plain s.records _ plain ∙ h.artifacts;
      once = h.once;
    };
  }

  count_accepted-IsApplied : (task_id : String) → Keeps IsApplied (count_accepted parts task_id)
  unfolding count_accepted record_provenance append_record create ◌>>=◌
  count_accepted-IsApplied task_id = record {
    at = λ s h. record {
      patches = h.patches;
      artifacts = artifact_tasks-provenance s.records _ refl ∙ h.artifacts;
      once = h.once;
    };
  }

  integrate_artifact-IsApplied :
      (spec : TaskSpec) (r : TaskResult) (kind : ArtifactKind) (text : String) (s : Orchestrator W)
      → contains s.applied_artifact_task_ids r.task_id ≡ false
      → IsApplied s
      → IsApplied (integrate_artifact parts spec r kind text s).1
  unfolding create
  integrate_artifact-IsApplied spec r kind text s new h =
      elim (Option-cases (command_line_for_task spec)) [
        | inl e ↦ rw (integrate_artifact-none parts spec r kind text s e) h
        | inr (line, e) ↦ rw (integrate_artifact-some parts spec r kind text s line e) (record {
          patches =
              patch_tasks-attach r.task_id _ (patched parts spec r kind text s line)
              ∙ patch_tasks-apply kind text (some r.task_id) line (some spec.task.block_text)
                  s.snapshot
              ∙ ap (λ ts. ts ++ some r.task_id ∷ []) h.patches
              ∙ sym (map-some-snoc r.task_id s.applied_artifact_task_ids);
          artifacts =
              artifact_tasks-snoc s.records (artifact_record parts spec r kind text s line) refl
              ∙ ap (λ ts. ts ++ some r.task_id ∷ []) h.artifacts
              ∙ sym (map-some-snoc r.task_id s.applied_artifact_task_ids);
          once = (new, h.once);
        })
      ]

  IsApplied-frame : IsFrame parts IsApplied
  IsApplied-frame = record {
    phase = λ s st pending reason h. record {
      patches = h.patches;
      artifacts = h.artifacts;
      once = h.once;
    };
    result = λ s r h. record { patches = h.patches; artifacts = h.artifacts; once = h.once };
    event = λ s es h. record { patches = h.patches; artifacts = h.artifacts; once = h.once };
    outside = λ s w h. record { patches = h.patches; artifacts = h.artifacts; once = h.once };
    append =
        λ task_id payload h. append_record-IsApplied task_id payload (IsOfRun-IsPlain payload h);
    accept = λ task_id s continued. (count_accepted-IsApplied task_id).at s;
    integrate = integrate_artifact-IsApplied;
  }

  -- The localizer leaves the patch entries of the snapshot alone.
  abbrev pub KeepsPatches : Type 0
  KeepsPatches =
      (s : Orchestrator W) → patch_tasks (take_next parts s).1.snapshot ≡ patch_tasks s.snapshot

  -- With a localizer that leaves the patch entries alone, a run from a state where the patch entries,
  -- the artifact records and the applied ids agree and no task occurs twice ends in such a state,
  -- however the reviews and the policy decide.
  pub run_until_terminal-IsApplied :
      (fuel : ℕ) (max_steps : ℤ) (s : Orchestrator W)
      → KeepsPatches
      → IsApplied s
      → IsApplied (run_until_terminal parts fuel max_steps s).1
  run_until_terminal-IsApplied fuel max_steps s localizer =
      (run_until_terminal-Keeps parts IsApplied-frame
          (record {
            at = λ s h. record {
              patches = localizer s ∙ h.patches;
              artifacts = h.artifacts;
              once = h.once;
            };
          })
          fuel max_steps).at
        s
