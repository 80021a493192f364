-- ===== src/Gate.antt =====
-- python/scripts/check_repair_acceptance_gate.py: the checks of the repair agent's documents and its
-- acceptance tests. The file system and the subprocess of pytest are parameters.
pub mod Laws
use isabelle_repl.Base.{
  ℤ, pos, int_eq, ◌≡◌, String, ◌<>◌, Bool, true, false, ◌==◌, Option, none, some, List, [], ◌∷◌,
  All, occurs_in, Exception, Attempt, returned, raised, if◌then◌else◌,
}

-- `subprocess.run(…)` of pytest.
pub record CompletedProcess : Type 0 where
  pub returncode : ℤ
  pub stdout : String

pub record GateHost : Type 0 where
  pub repo_root : String
  pub is_file : String → Bool
  pub exists : String → Bool
  pub read_text : String → Attempt String
  pub pytest : CompletedProcess

-- Why the gate ends the script: a SystemExit with a message or a code, or an exception of a file that
-- cannot be read.
pub data GateFailure : Type 0 where
  missing_doc : (path : String) → GateFailure
  missing_token : (token path : String) → GateFailure
  helper_in_runtime : (path : String) → GateFailure
  unreadable : Exception → GateFailure
  tests_failed : (returncode : ℤ) → GateFailure
  tests_skipped : GateFailure

-- `none` goes on with the next check.
abbrev pub Check : Type 0
Check = Option GateFailure

abbrev pub and_next : Check → Check → Check
and_next none next = next
and_next (some failure) next = some failure

module _ (host : GateHost) where
  abbrev pub traceability_matrix : String
  traceability_matrix =
      host.repo_root <> "/docs/v1_5/architecture/repair-agent-traceability-matrix.md"

  abbrev pub state_machine_contract : String
  state_machine_contract =
      host.repo_root <> "/docs/v1_5/contracts/theory-repair-run-state-machine-contract.md"

  abbrev pub acceptance_gate : String
  acceptance_gate = host.repo_root <> "/docs/v1_5/testing/repair-acceptance-gate.md"

  abbrev pub task_checklist : String
  task_checklist = host.repo_root <> "/docs/v1_5/implementation/task-checklist-and-acceptance.md"

  -- `REQUIRED_DOCS`
  abbrev pub required_docs : List String
  required_docs =
      traceability_matrix ∷ state_machine_contract ∷ acceptance_gate ∷ task_checklist ∷ []

  -- `FORBIDDEN_RUNTIME_FILES`
  abbrev pub forbidden_runtime_files : List String
  forbidden_runtime_files =
      (host.repo_root <> "/python/src/isabelle_repair/engine/simple.py")
      ∷ (host.repo_root <> "/python/src/isabelle_repair/localization/simple.py")
      ∷ []

  -- `REQUIRED_DOC_TOKENS`
  abbrev pub required_doc_tokens : List (String × List String)
  required_doc_tokens =
      (traceability_matrix, "Drawio Node Mapping" ∷ "PRD Requirement Mapping" ∷ [])
      ∷ (
        state_machine_contract,
        "State Definitions" ∷ "Invariants" ∷ "Trigger Conditions" ∷ "terminal_reason" ∷ [],
      )
      ∷ (
        task_checklist,
        "Phase 0: Baseline and Guardrails" ∷ "Phase 1: Incremental Localizer + Snapshot" ∷ [],
      )
      ∷ []

  -- The three loops of `_check_required_docs`.
  abbrev pub check_files : List String → Check
  check_files [] = none
  check_files (path ∷ paths) =
      if host.is_file path then check_files paths else some (missing_doc path)

  abbrev pub check_tokens : String → String → List String → Check
  check_tokens path text [] = none
  check_tokens path text (token ∷ tokens) =
      if occurs_in token text
      then check_tokens path text tokens
      else some (missing_token token path)

  abbrev pub check_text : String → List String → Attempt String → Check
  check_text path tokens (returned text) = check_tokens path text tokens
  check_text path tokens (raised e) = some (unreadable e)

  abbrev pub check_doc_tokens : List (String × List String) → Check
  check_doc_tokens [] = none
  check_doc_tokens ((path, tokens) ∷ docs) =
      and_next (check_text path tokens (host.read_text path)) (check_doc_tokens docs)

  abbrev pub check_forbidden : List String → Check
  check_forbidden [] = none
  check_forbidden (path ∷ paths) =
      if host.exists path then some (helper_in_runtime path) else check_forbidden paths

  unfoldable pub check_required_docs : Check
  check_required_docs =
      and_next (check_files required_docs)
        (and_next (check_doc_tokens required_doc_tokens) (check_forbidden forbidden_runtime_files))

  unfoldable pub run_acceptance_tests : Check
  run_acceptance_tests =
      if host.pytest.returncode == pos 0
      then (if occurs_in "SKIPPED" host.pytest.stdout then some tests_skipped else none)
      else some (tests_failed host.pytest.returncode)

  unfoldable pub gate_main : Check
  unfolding check_required_docs run_acceptance_tests
  gate_main = and_next check_required_docs run_acceptance_tests

  -- The document can be read and has the tokens.
  abbrev pub HasTokens : String × List String → Type 0
  HasTokens (path, tokens) =
      (text : String) × (host.read_text path ≡ returned text)
      × All (λ token. occurs_in token text ≡ true) tokens

  -- What the gate is to check.
  pub record IsAccepted : Type 0 where
    pub docs : All (λ path. host.is_file path ≡ true) required_docs
    pub tokens : All HasTokens required_doc_tokens
    pub helpers : All (λ path. host.exists path ≡ false) forbidden_runtime_files
    pub tests : host.pytest.returncode ≡ pos 0
    pub unskipped : occurs_in "SKIPPED" host.pytest.stdout ≡ false
