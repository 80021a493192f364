-- ===== src/Engine/Controller.antt =====
-- engine/generator.py, candidate_source.py and controller.py: the candidates for a task, their
-- sources, and the controller that executes and validates them in order.
use isabelle_repl.Base.{
  ℕ, suc, leb, ℤ, pos, String, ◌<>◌, decimal, truthy, or_text, Bool, true, false, ◌&&◌, ◌||◌, ◌==◌,
  string_eq, Option, none, some, or_default, List, [], ◌∷◌, ◌++◌, Action, pure, ◌>>=◌,
  if◌then◌else◌,
}
use isabelle_repl.Model.{
  repair, accepted, failed, TaskResult, bare_result, TaskSpec, TraceCounts, ValidationResult,
  ValidationStatus, passed, failed_execution, failed_contract, failed_timeout, inconclusive,
  no_details, SourceMetadata,
}
use isabelle_repl.Contracts.{
  terminal_proof_step_block, whole_proof_body_block, theorem_shell_block, top_level_command_block,
}
use isabelle_repl.Client.{StateResult, Stub, execute, run_sledgehammer}
use isabelle_repl.Engine.Adapters.{ValidationAdapterRegistry, registry_validate}

-- `task.metadata.get("source_state_id", "")`
abbrev pub source_state_of : TaskSpec → String
source_state_of spec = or_default spec.task.metadata.source_state_id ""

-- `_rules_for_block`
unfoldable pub rules_for_block : String → List String
rules_for_block block_kind =
    if block_kind == terminal_proof_step_block
    then "by simp" ∷ "by auto" ∷ "by blast" ∷ []
    else if block_kind == whole_proof_body_block
    then "by auto" ∷ "by blast" ∷ "by simp" ∷ []
    else if block_kind == theorem_shell_block
    then "by auto" ∷ "by simp" ∷ []
    else []

abbrev found_tactic : Bool × String × Option StateResult → List String
found_tactic (found, tactic, result) = if found && truthy tactic then tactic ∷ [] else []

-- `CandidateSource`
pub record CandidateSource (W : Type 0) : Type 0 where
  pub source_name : String
  pub candidates : TaskSpec → Action W (List String)
  pub source_metadata : TaskSpec → SourceMetadata

module _ {W : Type 0} (stub : Stub W) where
  unfoldable pub ask_sledgehammer : ℕ → String → Action W (List String)
  ask_sledgehammer timeout_ms source_state_id = do
    found ← run_sledgehammer stub source_state_id timeout_ms timeout_ms
    pure (found_tactic found)

  -- `RuleFirstGenerator.generate_candidates` behind the rules for the block.
  abbrev generate_from : ℕ → TaskSpec → Bool → List String → Action W (List String)
  generate_from timeout_ms spec allow_sledgehammer (rule ∷ rules) = pure (rule ∷ rules)
  generate_from timeout_ms spec allow_sledgehammer [] =
      if spec.task.block_kind == top_level_command_block
      then pure []
      else if allow_sledgehammer
      then (if truthy (source_state_of spec)
          then ask_sledgehammer timeout_ms (source_state_of spec)
          else pure [])
      else pure []

  unfoldable pub generate_candidates : ℕ → TaskSpec → Bool → Action W (List String)
  generate_candidates timeout_ms spec allow_sledgehammer =
      generate_from timeout_ms spec allow_sledgehammer (rules_for_block spec.task.block_kind)

  abbrev pub auto_candidate_source : ℕ → Bool → CandidateSource W
  auto_candidate_source timeout_ms allow_sledgehammer = record {
    source_name = "auto_rule_first";
    candidates = λ spec. generate_candidates timeout_ms spec allow_sledgehammer;
    source_metadata =
        λ spec. record { allow_sledgehammer = some allow_sledgehammer; strategy = "rule_first" };
  }

abbrev pub review_candidate_source : {W : Type 0} → String → CandidateSource W
review_candidate_source candidate_text = record {
  source_name = "review_injected";
  candidates = λ spec. pure (candidate_text ∷ []);
  source_metadata = λ spec. record { allow_sledgehammer = none; strategy = "review_replacement" };
}

-- `_annotate_validation`
unfoldable pub annotate_validation :
    ValidationResult → String → Option String → SourceMetadata → ValidationResult
annotate_validation v source_name candidate_text source_metadata = record v {
  details = record (v.details) {
    candidate_source = some source_name;
    candidate_text = elim candidate_text [
      | none ↦ v.details.candidate_text
      | some text ↦ some text
    ];
    candidate_source_metadata = some source_metadata;
  };
}

-- A validation without details.
abbrev pub plain : ValidationStatus → String → ValidationResult
plain status reason = record { status = status; reason = reason; details = no_details }

-- The text that `trace_summary` starts with.
abbrev pub trace_head : TraceCounts → String
trace_head n =
    "inspect="
    <> (decimal n.inspect
        <> (" propose=" <> (decimal n.propose <> (" validate=" <> decimal n.validate))))

abbrev pub counts : ℕ → ℕ → ℕ → TraceCounts
counts inspect propose validate = record {
  inspect = inspect;
  propose = propose;
  validate = validate;
}

-- A failure of the controller: its validation, counts and reason.
abbrev failure :
    TaskSpec → String → ValidationResult → List String → TraceCounts → String → TaskResult
failure spec source_name validation attempted n reason =
    record (bare_result spec.task.task_id failed) {
      validation = some validation;
      attempted_candidates = attempted;
      selected_generator = some source_name;
      trace_summary = trace_head n <> (" reason=" <> (reason <> (" source=" <> source_name)));
      trace_counts = n;
    }

abbrev missing_source_state : TaskSpec → TaskResult
missing_source_state spec = record (bare_result spec.task.task_id failed) {
  validation = some (plain failed_contract "missing_source_state");
  trace_summary = "inspect=0 propose=0 validate=0 reason=missing_source_state";
  trace_counts = counts 0 0 0;
}

abbrev acceptance :
    TaskSpec → String → ValidationResult → List String → TraceCounts → String → TaskResult
acceptance spec source_name validation attempted n candidate =
    record (bare_result spec.task.task_id accepted) {
      artifact_kind = some repair;
      artifact_text = some candidate;
      validation = some validation;
      attempted_candidates = attempted;
      selected_generator = some source_name;
      trace_summary = trace_head n <> (" selected=" <> (candidate <> (" source=" <> source_name)));
      trace_counts = n;
    }

abbrev pub is_passed : ValidationStatus → Bool
is_passed passed = true
is_passed _ = false

-- `_validate_execution`
unfoldable pub validate_execution :
    ValidationAdapterRegistry → TaskSpec → String → ℤ → StateResult → ValidationResult
validate_execution adapters spec entry_mode entry_proof_level r =
    if r.status == "TIMEOUT"
    then plain failed_timeout (or_text r.error_msg "timeout")
    else if r.status == "SUCCESS" || r.status == "PROOF_COMPLETE"
    then registry_validate adapters (record {
      block_kind = spec.task.block_kind;
      block_contract = spec.block_contract;
      entry_mode = entry_mode;
      entry_proof_level = entry_proof_level;
      execution_result = r;
    })
    else plain failed_execution (or_text r.error_msg "execution_failed")

abbrev pub entry_level : TaskSpec → ℤ
entry_level spec = or_default spec.task.entry_checkpoint.proof_level (pos 0)

abbrev entry_mode_of : TaskSpec → String
entry_mode_of spec = or_default spec.task.entry_checkpoint.mode ""

module _ {W : Type 0} (stub : Stub W) (adapters : ValidationAdapterRegistry) (timeout_ms : ℕ) where
  -- The validation of an execution, with the source and the text of its candidate.
  abbrev pub judge : TaskSpec → CandidateSource W → String → StateResult → ValidationResult
  judge spec source candidate r =
      annotate_validation
        (validate_execution adapters spec (entry_mode_of spec) (entry_level spec) r)
        source.source_name (some candidate) (source.source_metadata spec)

  -- The loop over the candidates. `validate_count` executions are behind it, and as many proposals.
  unfoldable pub try_candidates :
      TaskSpec → CandidateSource W → ℕ → List String → List String → Action W TaskResult
  try_candidates spec source validate_count attempted [] = pure (
      failure spec source.source_name
        (annotate_validation (plain failed_contract "all_candidates_rejected") source.source_name
          none (source.source_metadata spec))
        attempted (counts 1 validate_count validate_count) "all_candidates_rejected")
  try_candidates spec source validate_count attempted (candidate ∷ rest) =
      if leb spec.max_validations validate_count
      then pure (
          failure spec source.source_name
            (annotate_validation (plain inconclusive "validation_budget_exhausted")
              source.source_name none (source.source_metadata spec))
            attempted (counts 1 validate_count validate_count) "validation_budget_exhausted")
      else (do
        r ← execute stub (source_state_of spec) candidate timeout_ms true
        if is_passed (judge spec source candidate r).status
            then pure (
                acceptance spec source.source_name (judge spec source candidate r)
                  (attempted ++ candidate ∷ []) (counts 1 (suc validate_count) (suc validate_count))
                  candidate)
            else try_candidates spec source (suc validate_count) (attempted ++ candidate ∷ []) rest)

  abbrev pub start_candidates : TaskSpec → CandidateSource W → List String → Action W TaskResult
  start_candidates spec source [] = pure (
      failure spec source.source_name (plain failed_contract "no_candidate_generated") []
        (counts 1 0 0) "no_candidate_generated")
  start_candidates spec source (candidate ∷ rest) =
      try_candidates spec source 0 [] (candidate ∷ rest)

  unfoldable pub run_with_source : TaskSpec → CandidateSource W → Action W TaskResult
  run_with_source spec source =
      if truthy (source_state_of spec)
      then (do candidates ← source.candidates spec; start_candidates spec source candidates)
      else pure (missing_source_state spec)

  abbrev validation_of : Option ValidationResult → ValidationResult
  validation_of none = plain failed_contract "missing_validation_result"
  validation_of (some v) = v

  -- `DeterministicTaskController.validate_candidate`
  unfoldable pub controller_validate_candidate : TaskSpec → String → Action W ValidationResult
  controller_validate_candidate spec candidate_text = do
    r ← run_with_source spec (review_candidate_source candidate_text)
    pure (validation_of r.validation)

  -- `DeterministicTaskController.run`, whose generator has a timeout of its own.
  unfoldable pub controller_run : ℕ → TaskSpec → Action W TaskResult
  controller_run generator_timeout_ms spec = run_with_source spec (
      auto_candidate_source stub generator_timeout_ms
        (or_default spec.task.metadata.allow_sledgehammer true))
