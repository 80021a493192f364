-- ===== src/Orchestrator/Invariants/Ordered.antt =====
-- The order of the records: what stands before the provenance of an accepted artifact.
use isabelle_repl.Base.{
  ℤ, ℕ, ◌≡◌, refl, String, false, Option, none, some, List, [], ◌∷◌, ◌++◌, Keeps, ◌>>=◌,
  Option-cases, inl, inr,
}
use isabelle_repl.Model.{
  RunRecord, RecordPayload, provenance, continuation, run_metadata, TaskSpec, TaskResult,
  ArtifactKind,
}
use isabelle_repl.Records.{create}
use isabelle_repl.Orchestrator.State.{Parts, Orchestrator}
use isabelle_repl.Orchestrator.Recording.{append_record, record_provenance}
use isabelle_repl.Orchestrator.Contexts.{command_line_for_task}
use isabelle_repl.Orchestrator.Reviews.{count_accepted, integrate_artifact}
use isabelle_repl.Orchestrator.Loop.{run_until_terminal}
use isabelle_repl.Orchestrator.Integration.{
  artifact_record, integrate_artifact-some, integrate_artifact-none,
}
use isabelle_repl.Orchestrator.Frame.{IsOfRun-IsPlain, IsFrame, IsPlain, IsContinued, is_stop}
use isabelle_repl.Orchestrator.Frame.Rounds.{run_until_terminal-Keeps}

-- A continuation that is not a stop.
abbrev pub GoesOn : RecordPayload → Type 0
GoesOn (continuation selection) = is_stop selection.kind ≡ false
GoesOn _ = ⊥

-- A provenance record needs the record of its task's continuation right before it.
abbrev pub Follows : RecordPayload → Option String → Option RunRecord → Type 0
Follows provenance task_id none = ⊥
Follows provenance task_id (some prev) = (prev.task_id ≡ task_id) × GoesOn prev.payload
Follows _ task_id prev = Unit

-- Each record of the list follows the one before it; `prev` stands before the list.
abbrev pub IsOrdered : Option RunRecord → List RunRecord → Type 0
IsOrdered prev [] = Unit
IsOrdered prev (r ∷ rs) = Follows r.payload r.task_id prev × IsOrdered (some r) rs

abbrev last_of : Option RunRecord → List RunRecord → Option RunRecord
last_of prev [] = prev
last_of prev (r ∷ rs) = last_of (some r) rs

last_of-snoc :
    (prev : Option RunRecord) (rs : List RunRecord) (r : RunRecord)
    → last_of prev (rs ++ r ∷ []) ≡ some r
last_of-snoc prev [] r = refl
last_of-snoc prev (x ∷ rs) r = last_of-snoc (some x) rs r

IsOrdered-snoc :
    (prev : Option RunRecord) (rs : List RunRecord) (r : RunRecord)
    → IsOrdered prev rs
    → Follows r.payload r.task_id (last_of prev rs)
    → IsOrdered prev (rs ++ r ∷ [])
IsOrdered-snoc prev [] r h follows = (follows, tt)
IsOrdered-snoc prev (x ∷ rs) r h follows = (h.0, IsOrdered-snoc (some x) rs r h.1 follows)

Follows-plain :
    (p : RecordPayload)
    → IsPlain p
    → (task_id : Option String) (prev : Option RunRecord) → Follows p task_id prev
Follows-plain provenance h task_id prev = absurd h
Follows-plain (run_metadata a b c d) h task_id prev = tt
Follows-plain _ h task_id prev = tt

module _ {W : Type 0} (parts : Parts W) where
  abbrev pub Ordered : Orchestrator W → Type 0
  Ordered s = IsOrdered none s.records

  pub append_record-IsOrdered :
      (task_id : Option String) (payload : RecordPayload)
      → IsPlain payload
      → Keeps Ordered (append_record parts task_id payload)
  unfolding append_record create
  append_record-IsOrdered task_id payload plain = record {
    at = λ s h.
        IsOrdered-snoc none s.records _ h
          (Follows-plain payload plain task_id (last_of none s.records));
  }

  provenance-Follows :
      (task_id : String) (s : Orchestrator W)
      → IsContinued task_id s
      → Follows provenance (some task_id) (last_of none s.records)
  provenance-Follows task_id s continued =
      rw (continued.is_last, last_of-snoc none continued.before continued.chosen)
        (continued.of_task, rw continued.selects continued.goes_on)

  count_accepted-IsOrdered :
      (task_id : String) (s : Orchestrator W)
      → IsContinued task_id s
      → Ordered s
      → Ordered (count_accepted parts task_id s).1
  unfolding count_accepted record_provenance append_record create ◌>>=◌
  count_accepted-IsOrdered task_id s continued h =
      IsOrdered-snoc none s.records _ h (provenance-Follows task_id s continued)

  integrate_artifact-IsOrdered :
      (spec : TaskSpec) (r : TaskResult) (kind : ArtifactKind) (text : String) (s : Orchestrator W)
      → Ordered s
      → Ordered (integrate_artifact parts spec r kind text s).1
  unfolding create
  integrate_artifact-IsOrdered spec r kind text s h =
      elim (Option-cases (command_line_for_task spec)) [
        | inl e ↦ rw (integrate_artifact-none parts spec r kind text s e) h
        | inr (line, e) ↦
            rw (integrate_artifact-some parts spec r kind text s line e)
              (IsOrdered-snoc none s.records (artifact_record parts spec r kind text s line) h tt)
      ]

  IsOrdered-frame : IsFrame parts Ordered
  IsOrdered-frame = record {
    phase = λ s st pending reason h. h;
    result = λ s r h. h;
    event = λ s es h. h;
    outside = λ s w h. h;
    append =
        λ task_id payload h. append_record-IsOrdered task_id payload (IsOfRun-IsPlain payload h);
    accept = count_accepted-IsOrdered;
    integrate = λ spec r kind text s new h. integrate_artifact-IsOrdered spec r kind text s h;
  }

  pub run_until_terminal-IsOrdered :
      (fuel : ℕ) (max_steps : ℤ) (s : Orchestrator W)
      → Ordered s
      → Ordered (run_until_terminal parts fuel max_steps s).1
  run_until_terminal-IsOrdered fuel max_steps =
      (run_until_terminal-Keeps parts IsOrdered-frame (record { at = λ s h. h }) fuel max_steps).at
