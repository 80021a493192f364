-- ===== src/Orchestrator/Invariants/Accepted.antt =====
-- The count of accepted artifacts.
use isabelle_repl.Base.{
  ℤ, ℕ, suc, ◌+◌, ◌≡◌, refl, String, Option, List, [], ◌∷◌, ◌++◌, arith, Keeps, ◌>>=◌, Option-cases,
  inl, inr,
}
use isabelle_repl.Model.{
  RunRecord, RecordPayload, provenance, run_metadata, TaskSpec, TaskResult, ArtifactKind,
}
use isabelle_repl.Records.{create}
use isabelle_repl.Orchestrator.State.{Parts, Orchestrator}
use isabelle_repl.Orchestrator.Recording.{append_record, record_provenance}
use isabelle_repl.Orchestrator.Contexts.{command_line_for_task}
use isabelle_repl.Orchestrator.Reviews.{count_accepted, integrate_artifact}
use isabelle_repl.Orchestrator.Loop.{run_until_terminal}
use isabelle_repl.Orchestrator.Integration.{
  artifact_record, integrate_artifact-some, integrate_artifact-none,
}
use isabelle_repl.Orchestrator.Frame.{IsOfRun-IsPlain, IsFrame, IsPlain}
use isabelle_repl.Orchestrator.Frame.Rounds.{run_until_terminal-Keeps}

abbrev add_provenance : RecordPayload → ℕ → ℕ
add_provenance provenance n = suc n
add_provenance _ n = n

-- The number of provenance records of accepted artifacts.
abbrev pub provenance_count : List RunRecord → ℕ
provenance_count [] = 0
provenance_count (r ∷ rs) = add_provenance r.payload (provenance_count rs)

-- The count of accepted artifacts is the number of their provenance records.
abbrev pub IsCounted : {W : Type 0} → Orchestrator W → Type 0
IsCounted s = s.accepted_artifact_count ≡ provenance_count s.records

add_provenance-add : (p : RecordPayload) (n : ℕ) → add_provenance p n ≡ n + add_provenance p 0
add_provenance-add provenance n = omega arith
add_provenance-add (run_metadata a b c d) n = omega arith
add_provenance-add _ n = omega arith

provenance_count-snoc :
    (rs : List RunRecord) (r : RunRecord)
    → provenance_count (rs ++ r ∷ []) ≡ provenance_count rs + add_provenance r.payload 0
provenance_count-snoc [] r = omega arith
provenance_count-snoc (x ∷ rs) r = omega (
  arith,
  provenance_count-snoc rs r,
  add_provenance-add x.payload (provenance_count rs),
  add_provenance-add x.payload (provenance_count (rs ++ r ∷ [])),
)

add_provenance-plain : (p : RecordPayload) → IsPlain p → add_provenance p 0 ≡ 0
add_provenance-plain provenance h = absurd h
add_provenance-plain (run_metadata a b c d) h = refl
add_provenance-plain _ h = refl

module _ {W : Type 0} (parts : Parts W) where
  append_record-IsCounted :
      (task_id : Option String) (payload : RecordPayload)
      → IsPlain payload
      → Keeps IsCounted (append_record parts task_id payload)
  unfolding append_record create
  append_record-IsCounted task_id payload plain = record {
    at = λ s h.
        omega (arith, h, provenance_count-snoc s.records _, add_provenance-plain payload plain);
  }

  count_accepted-IsCounted : (task_id : String) → Keeps IsCounted (count_accepted parts task_id)
  unfolding count_accepted record_provenance append_record create ◌>>=◌
  count_accepted-IsCounted task_id = record {
    at = λ s h. omega (arith, h, provenance_count-snoc s.records _);
  }

  integrate_artifact-IsCounted :
      (spec : TaskSpec) (r : TaskResult) (kind : ArtifactKind) (text : String) (s : Orchestrator W)
      → IsCounted s
      → IsCounted (integrate_artifact parts spec r kind text s).1
  unfolding create
  integrate_artifact-IsCounted spec r kind text s h =
      elim (Option-cases (command_line_for_task spec)) [
        | inl e ↦ rw (integrate_artifact-none parts spec r kind text s e) h
        | inr (line, e) ↦ rw (integrate_artifact-some parts spec r kind text s line e) (
            omega (
              arith,
              h,
              provenance_count-snoc s.records (artifact_record parts spec r kind text s line),
            ))
      ]

  IsCounted-frame : IsFrame parts IsCounted
  IsCounted-frame = record {
    phase = λ s st pending reason h. h;
    result = λ s r h. h;
    event = λ s es h. h;
    outside = λ s w h. h;
    append =
        λ task_id payload h. append_record-IsCounted task_id payload (IsOfRun-IsPlain payload h);
    accept = λ task_id s continued. (count_accepted-IsCounted task_id).at s;
    integrate = λ spec r kind text s new h. integrate_artifact-IsCounted spec r kind text s h;
  }

  -- A run that starts with a count of accepted artifacts equal to the number of their provenance
  -- records ends so, however it ends.
  pub run_until_terminal-IsCounted :
      (fuel : ℕ) (max_steps : ℤ) (s : Orchestrator W)
      → IsCounted s
      → IsCounted (run_until_terminal parts fuel max_steps s).1
  run_until_terminal-IsCounted fuel max_steps =
      (run_until_terminal-Keeps parts IsCounted-frame (record { at = λ s h. h }) fuel max_steps).at
