-- ===== src/Orchestrator/Invariants/Numbering.antt =====
-- The sequence numbers of the records.
use isabelle_repl.Base.{
  ℤ, ℕ, suc, ◌+◌, ◌≡◌, String, Option, some, List, [], ◌∷◌, ◌++◌, length, length-append, arith,
  Keeps, Keeps-bind, Keeps-modify, Option-cases, inl, inr, string_eq,
}
use isabelle_repl.Model.{RunRecord, RecordPayload, provenance, TaskSpec, TaskResult, ArtifactKind}
use isabelle_repl.Records.{create}
use isabelle_repl.Orchestrator.State.{Parts, Orchestrator}
use isabelle_repl.Orchestrator.Recording.{append_record, record_provenance}
use isabelle_repl.Orchestrator.Contexts.{command_line_for_task}
use isabelle_repl.Orchestrator.Reviews.{count_accepted, integrate_artifact}
use isabelle_repl.Orchestrator.Loop.{run_until_terminal}
use isabelle_repl.Orchestrator.Integration.{
  artifact_record, integrate_artifact-some, integrate_artifact-none,
}
use isabelle_repl.Orchestrator.Frame.{IsFrame}
use isabelle_repl.Orchestrator.Frame.Rounds.{run_until_terminal-Keeps}

-- The numbers of the records are n + 1, n + 2, ….
abbrev pub Numbered : ℕ → List RunRecord → Type 0
Numbered n [] = Unit
Numbered n (r ∷ rs) = (r.run_local_sequence_number ≡ suc n) × Numbered (suc n) rs

-- The records of the run are numbered from 1, and the factory holds the last number.
pub record IsNumbered {W : Type 0} (s : Orchestrator W) : Type 0 where
  pub numbers : Numbered 0 s.records
  pub last : s.record_factory.seq ≡ length s.records

Numbered-snoc :
    (n : ℕ) (rs : List RunRecord) (r : RunRecord)
    → Numbered n rs
    → r.run_local_sequence_number ≡ suc (n + length rs)
    → Numbered n (rs ++ r ∷ [])
Numbered-snoc n [] r h e = (omega arith, tt)
Numbered-snoc n (x ∷ rs) r h e = (h.0, Numbered-snoc (suc n) rs r h.1 (omega arith))

module _ {W : Type 0} (parts : Parts W) where
  pub append_record-IsNumbered :
      (task_id : Option String) (payload : RecordPayload)
      → Keeps IsNumbered (append_record parts task_id payload)
  unfolding append_record create
  append_record-IsNumbered task_id payload = record {
    at = λ s h. record {
      numbers = Numbered-snoc 0 s.records _ h.numbers (omega (arith, h.last));
      last = omega (arith, h.last, length-append s.records);
    };
  }

  count_accepted-IsNumbered : (task_id : String) → Keeps IsNumbered (count_accepted parts task_id)
  unfolding count_accepted record_provenance
  count_accepted-IsNumbered task_id =
      Keeps-bind _ _ (append_record-IsNumbered (some task_id) provenance)
        (λ _. Keeps-modify _ (λ s h. record { numbers = h.numbers; last = h.last }))

  integrate_artifact-IsNumbered :
      (spec : TaskSpec) (r : TaskResult) (kind : ArtifactKind) (text : String) (s : Orchestrator W)
      → IsNumbered s
      → IsNumbered (integrate_artifact parts spec r kind text s).1
  unfolding create
  integrate_artifact-IsNumbered spec r kind text s h =
      elim (Option-cases (command_line_for_task spec)) [
        | inl e ↦ rw (integrate_artifact-none parts spec r kind text s e) h
        | inr (line, e) ↦ rw (integrate_artifact-some parts spec r kind text s line e) (record {
          numbers =
              Numbered-snoc 0 s.records (artifact_record parts spec r kind text s line) h.numbers
                (omega (arith, h.last));
          last = omega (
            arith,
            h.last,
            length-append s.records (artifact_record parts spec r kind text s line ∷ []),
          );
        })
      ]

  IsNumbered-frame : IsFrame parts IsNumbered
  IsNumbered-frame = record {
    phase = λ s st pending reason h. record { numbers = h.numbers; last = h.last };
    result = λ s r h. record { numbers = h.numbers; last = h.last };
    event = λ s es h. record { numbers = h.numbers; last = h.last };
    outside = λ s w h. record { numbers = h.numbers; last = h.last };
    append = λ task_id payload plain. append_record-IsNumbered task_id payload;
    accept = λ task_id s continued. (count_accepted-IsNumbered task_id).at s;
    integrate = λ spec r kind text s new h. integrate_artifact-IsNumbered spec r kind text s h;
  }

  -- A run that starts with numbered records ends with numbered records: however it ends, their
  -- numbers are 1, 2, …, in the order in which they were appended.
  pub run_until_terminal-IsNumbered :
      (fuel : ℕ) (max_steps : ℤ) (s : Orchestrator W)
      → IsNumbered s
      → IsNumbered (run_until_terminal parts fuel max_steps s).1
  run_until_terminal-IsNumbered fuel max_steps =
      (run_until_terminal-Keeps parts IsNumbered-frame
        (record { at = λ s h. record { numbers = h.numbers; last = h.last } }) fuel max_steps).at
