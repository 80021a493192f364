-- ===== src/Engine/Fallback.antt =====
-- repl/minimal.py: the engine of the runs, which tries one block kind after another.
use isabelle_repl.Base.{
  ℕ, suc, ◌+◌, ◌-◌, ltb, length, String, ◌<>◌, decimal, truthy, join, Bool, true, false, not, ◌||◌,
  ◌==◌, string_eq, Option, none, some, or_default, List, [], ◌∷◌, ◌++◌, map, Action, pure, ◌>>=◌,
  if◌then◌else◌,
}
use isabelle_repl.Model.{
  repair, TaskOutcome, accepted, failed, escalated, outcome_value, TaskResult, bare_result,
  TaskSpec, TraceCounts, no_counts, BlockContract, RepairBlockCandidate, ValidationResult,
  failed_contract, inconclusive, no_details,
}
use isabelle_repl.Hooks.{truthy_text}
use isabelle_repl.Contracts.{contract_for_block_kind}
use isabelle_repl.Client.{Stub}
use isabelle_repl.Engine.Adapters.{default_registry}
use isabelle_repl.Engine.Controller.{plain, controller_run, controller_validate_candidate}

abbrev add_candidate :
    String → String → Option BlockContract → List RepairBlockCandidate → List RepairBlockCandidate
add_candidate block_kind origin none rest = rest
add_candidate block_kind origin (some contract) rest =
    record {
      block_kind = block_kind;
      block_contract = contract;
      origin = origin;
      localization_confidence = none;
    }
    ∷ rest

-- The candidates for a chain of block kinds, `index` of them behind.
unfoldable pub chain_candidates : ℕ → List String → List RepairBlockCandidate
chain_candidates index [] = []
chain_candidates index (block_kind ∷ chain) =
    add_candidate block_kind (if ltb 0 index then "fallback" else "primary")
      (contract_for_block_kind block_kind) (chain_candidates (suc index) chain)

abbrev or_kind : List String → String → List String
or_kind [] block_kind = block_kind ∷ []
or_kind (k ∷ ks) block_kind = k ∷ ks

abbrev candidates_or_chain : List RepairBlockCandidate → TaskSpec → List RepairBlockCandidate
candidates_or_chain [] spec =
    chain_candidates 0
      (or_kind (or_default spec.task.metadata.fallback_chain []) spec.task.block_kind)
candidates_or_chain (c ∷ cs) spec = c ∷ cs

-- `_fallback_candidates`
unfoldable pub fallback_candidates : TaskSpec → List RepairBlockCandidate
fallback_candidates spec = candidates_or_chain spec.task.fallback_candidates spec

-- The locals of `run` that its loop changes.
pub record Progress : Type 0 where
  pub index : ℕ
  pub attempted : List String
  pub trace_parts : List String
  pub selected_generator : Option String
  pub validation_count : ℕ
  pub trace_counts : TraceCounts

abbrev pub no_progress : Progress
no_progress = record {
  index = 0;
  attempted = [];
  trace_parts = [];
  selected_generator = none;
  validation_count = 0;
  trace_counts = no_counts;
}

-- `effective_spec`: the task with the block kind of a candidate and what is left of the budget.
unfoldable pub effective_spec : TaskSpec → Progress → RepairBlockCandidate → TaskSpec
effective_spec spec p candidate = record spec {
  task = record {
    task_id = spec.task.task_id <> ("-k" <> decimal p.index);
    block_kind = candidate.block_kind;
    failure_kind = spec.task.failure_kind;
    block_text = spec.task.block_text;
    entry_checkpoint = spec.task.entry_checkpoint;
    metadata = record (spec.task.metadata) {
      fallback_origin = some spec.task.block_kind;
      active_block_kind = some candidate.block_kind;
    };
    fallback_candidates = [];
  };
  block_contract = candidate.block_contract;
  max_validations = spec.max_validations - p.validation_count;
}

abbrev trace_part : String → TaskResult → String
trace_part block_kind r =
    let head = block_kind <> (":" <> outcome_value r.outcome) in
    if truthy r.trace_summary then head <> ("(" <> (r.trace_summary <> ")")) else head

-- The locals after the controller's result for a candidate. The index counts up at the loop's head.
unfoldable pub advance : Progress → String → TaskResult → Progress
advance p block_kind r = record {
  index = p.index;
  attempted = p.attempted ++ r.attempted_candidates;
  trace_parts = p.trace_parts ++ trace_part block_kind r ∷ [];
  selected_generator =
      if truthy_text r.selected_generator then r.selected_generator else p.selected_generator;
  validation_count = p.validation_count + length r.attempted_candidates;
  trace_counts = record {
    inspect = p.trace_counts.inspect + r.trace_counts.inspect;
    propose = p.trace_counts.propose + r.trace_counts.propose;
    validate = p.trace_counts.validate + r.trace_counts.validate;
  };
}

-- A result of `run` with its trace, its counts and its attempts.
abbrev traced : TaskSpec → TaskOutcome → Progress → TaskResult
traced spec outcome p = record (bare_result spec.task.task_id outcome) {
  trace_summary = join " | " p.trace_parts;
  trace_counts = p.trace_counts;
  attempted_candidates = p.attempted;
  selected_generator = p.selected_generator;
}

abbrev pub is_fallback : Progress → RepairBlockCandidate → Bool
is_fallback p candidate = ltb 0 p.index || not (candidate.origin == "primary")

abbrev confidence : Option String → Option String → Option String
confidence none of_task = of_task
confidence (some c) of_task = some c

-- The accepted result of a candidate, from the controller's result and the locals after it.
unfoldable pub accepted_result :
    TaskSpec → Progress → RepairBlockCandidate → TaskResult → TaskResult
accepted_result spec p candidate r = record (traced spec accepted p) {
  artifact_kind = r.artifact_kind;
  artifact_text = r.artifact_text;
  requires_rerun = r.requires_rerun;
  validation = r.validation;
  selected_block_kind = some candidate.block_kind;
  fallback_depth = if is_fallback p candidate then p.index else 0;
  fallback_origin = if is_fallback p candidate then some candidate.origin else none;
  fallback_target_contract =
      if is_fallback p candidate then some candidate.block_contract else none;
  localization_confidence =
      if is_fallback p candidate
      then confidence candidate.localization_confidence spec.task.metadata.localization_confidence
      else none;
}

-- The failure that stops the loop when the budget is used up.
unfoldable pub over_budget_result : TaskSpec → Progress → Option ValidationResult → TaskResult
over_budget_result spec p validation = record (traced spec failed p) { validation = validation }

abbrev pub is_exhausted : Option ValidationResult → Bool
is_exhausted none = false
is_exhausted (some v) = v.reason == "validation_budget_exhausted"

abbrev pub is_accepted : TaskOutcome → Bool
is_accepted accepted = true
is_accepted _ = false

-- What `run` returns when no block kind gave a repair.
unfoldable pub exhausted_result :
    Bool → TaskSpec → List RepairBlockCandidate → Progress → TaskResult
exhausted_result true spec candidates p = record (traced spec escalated p) {
  artifact_kind = some repair;
  artifact_text = some spec.task.block_text;
  validation = some (record {
    status = inconclusive;
    reason = "auto_candidates_exhausted_promote_review";
    details = record no_details {
      candidate_source = some "review_fallback";
      fallback_chain = some (map (λ c. c.block_kind) candidates);
    };
  });
  trace_summary = join " | " (p.trace_parts ++ "review_fallback:escalated" ∷ []);
  selected_generator = some "review_fallback";
}
exhausted_result false spec candidates p = record (traced spec failed p) {
  validation = some (plain failed_contract "all_block_kinds_failed");
  selected_generator =
      if truthy_text p.selected_generator then p.selected_generator else some "rule_first";
}

-- `client`, `timeout_ms` and `promote_failed_block_for_review` of `ReplDeterministicTaskEngine`.
module _ {W : Type 0} (stub : Stub W) (timeout_ms : ℕ) (promote : Bool) where
  unfoldable pub try_blocks :
      TaskSpec
      → List RepairBlockCandidate
      → List RepairBlockCandidate
      → Progress
      → Action W TaskResult
  try_blocks spec candidates [] p = pure (exhausted_result promote spec candidates p)
  try_blocks spec candidates (candidate ∷ rest) p = do
    r ← controller_run stub default_registry timeout_ms timeout_ms (effective_spec spec p candidate)
    if is_accepted r.outcome
        then pure (accepted_result spec (advance p candidate.block_kind r) candidate r)
        else if is_exhausted r.validation
        then pure (over_budget_result spec (advance p candidate.block_kind r) r.validation)
        else try_blocks spec candidates rest
            (record (advance p candidate.block_kind r) { index = suc p.index })

  -- `ReplDeterministicTaskEngine.run`
  unfoldable pub run : TaskSpec → Action W TaskResult
  run spec = try_blocks spec (fallback_candidates spec) (fallback_candidates spec) no_progress

  -- `ReplDeterministicTaskEngine.validate_candidate`. A contract is never None here.
  unfoldable pub validate_candidate : TaskSpec → String → Action W ValidationResult
  validate_candidate spec candidate_text =
      controller_validate_candidate stub default_registry timeout_ms spec candidate_text
