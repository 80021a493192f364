-- ===== src/Orchestrator/Invariants/Stamped.antt =====
-- The version and the run id of the records.
use isabelle_repl.Base.{
  ℤ, ℕ, ◌≡◌, refl, String, Option, some, List, [], ◌∷◌, ◌++◌, All, Keeps, Keeps-bind, Keeps-modify,
  Option-cases, inl, inr, string_eq, false, contains,
}
use isabelle_repl.Model.{RunRecord, RecordPayload, provenance, TaskSpec, TaskResult, ArtifactKind}
use isabelle_repl.Records.{create}
use isabelle_repl.Orchestrator.State.{Parts, Orchestrator}
use isabelle_repl.Orchestrator.Recording.{append_record, record_provenance}
use isabelle_repl.Orchestrator.Contexts.{command_line_for_task}
use isabelle_repl.Orchestrator.Reviews.{count_accepted, integrate_artifact}
use isabelle_repl.Orchestrator.Loop.{run_until_terminal}
use isabelle_repl.Orchestrator.Integration.{
  artifact_record, integrate_artifact-some, integrate_artifact-none,
}
use isabelle_repl.Orchestrator.Frame.{IsFrame}
use isabelle_repl.Orchestrator.Frame.Rounds.{run_until_terminal-Keeps}

-- A record of this version and this run.
pub record HasStamp (version run_id : String) (r : RunRecord) : Type 0 where
  pub schema_version : r.schema_version ≡ version
  pub theory_run_id : r.theory_run_id ≡ run_id

-- The records so far, and those that the factory is to make.
pub record IsStamped {W : Type 0} (version run_id : String) (s : Orchestrator W) : Type 0 where
  pub records : All (HasStamp version run_id) s.records
  pub schema_version : s.record_factory.schema_version ≡ version
  pub theory_run_id : s.record_factory.theory_run_id ≡ run_id

All-snoc :
    {A : Type 0} (P : A → Type 0) (xs : List A) (x : A) → All P xs → P x → All P (xs ++ x ∷ [])
All-snoc P [] x hs h = (h, tt)
All-snoc P (y ∷ xs) x hs h = (hs.0, All-snoc P xs x hs.1 h)

module _ {W : Type 0} (parts : Parts W) (version run_id : String) where
  abbrev Stamped : Orchestrator W → Type 0
  Stamped s = IsStamped version run_id s

  pub append_record-IsStamped :
      (task_id : Option String) (payload : RecordPayload)
      → Keeps Stamped (append_record parts task_id payload)
  unfolding append_record create
  append_record-IsStamped task_id payload = record {
    at = λ s h. record {
      records =
          All-snoc (HasStamp version run_id) s.records _ h.records
            (record { schema_version = h.schema_version; theory_run_id = h.theory_run_id });
      schema_version = h.schema_version;
      theory_run_id = h.theory_run_id;
    };
  }

  count_accepted-IsStamped : (task_id : String) → Keeps Stamped (count_accepted parts task_id)
  unfolding count_accepted record_provenance
  count_accepted-IsStamped task_id =
      Keeps-bind _ _ (append_record-IsStamped (some task_id) provenance) (λ _.
        Keeps-modify _ (λ s h. record {
          records = h.records;
          schema_version = h.schema_version;
          theory_run_id = h.theory_run_id;
        }))

  integrate_artifact-IsStamped :
      (spec : TaskSpec) (r : TaskResult) (kind : ArtifactKind) (text : String) (s : Orchestrator W)
      → contains s.applied_artifact_task_ids r.task_id ≡ false
      → Stamped s
      → Stamped (integrate_artifact parts spec r kind text s).1
  unfolding create
  integrate_artifact-IsStamped spec r kind text s new h =
      elim (Option-cases (command_line_for_task spec)) [
        | inl e ↦ rw (integrate_artifact-none parts spec r kind text s e) h
        | inr (line, e) ↦ rw (integrate_artifact-some parts spec r kind text s line e) (record {
          records =
              All-snoc (HasStamp version run_id) s.records
                (artifact_record parts spec r kind text s line) h.records
                (record { schema_version = h.schema_version; theory_run_id = h.theory_run_id });
          schema_version = h.schema_version;
          theory_run_id = h.theory_run_id;
        })
      ]

  same_records :
      (s t : Orchestrator W)
      → t.records ≡ s.records
      → t.record_factory ≡ s.record_factory
      → Stamped s
      → Stamped t
  same_records s t rs factory h = record {
    records = rw rs h.records;
    schema_version = rw factory h.schema_version;
    theory_run_id = rw factory h.theory_run_id;
  }

  IsStamped-frame : IsFrame parts Stamped
  IsStamped-frame = record {
    phase = λ s st pending reason. same_records s _ refl refl;
    result = λ s r. same_records s _ refl refl;
    event = λ s es. same_records s _ refl refl;
    outside = λ s w. same_records s _ refl refl;
    append = λ task_id payload plain. append_record-IsStamped task_id payload;
    accept = λ task_id s continued. (count_accepted-IsStamped task_id).at s;
    integrate = integrate_artifact-IsStamped;
  }

  pub run_until_terminal-IsStamped :
      (fuel : ℕ) (max_steps : ℤ) (s : Orchestrator W)
      → Stamped s
      → Stamped (run_until_terminal parts fuel max_steps s).1
  run_until_terminal-IsStamped fuel max_steps =
      (run_until_terminal-Keeps parts IsStamped-frame
        (record { at = λ s. same_records s _ refl refl }) fuel max_steps).at
