-- ===== src/Model/Tasks.antt =====
-- Tasks, candidates and results of python/src/isabelle_repair/model/types.py.
use isabelle_repl.Base.{ℕ, ℤ, String, Bool, false, Option, none, List, []}
use isabelle_repl.Model.Kinds.{
  FailureKind, ArtifactKind, TaskOutcome, ValidationStatus, BlockContract,
}

pub record RepairBlockCandidate : Type 0 where
  pub block_kind : String
  pub block_contract : BlockContract
  pub origin : String
  -- the one key of `metadata` that is read
  pub localization_confidence : Option String

-- What `int(raw)` makes of a value: a number, or a TypeError or ValueError.
pub data RawInt : Type 0 where
  readable : ℤ → RawInt
  unreadable : RawInt

-- `entry_checkpoint`
pub record EntryCheckpoint : Type 0 where
  pub mode : Option String
  pub proof_level : Option ℤ

-- `metadata` of a task
pub record TaskMetadata : Type 0 where
  pub source_state_id : Option String
  pub candidate_tactic : Option String
  pub allow_sledgehammer : Option Bool
  pub line : Option RawInt
  pub command_line : Option RawInt
  pub command_kind : Option String
  pub error_msg : Option String
  pub fallback_chain : Option (List String)
  pub fallback_origin : Option String
  pub active_block_kind : Option String
  pub drift_fallback_reason : Option String
  pub localization_confidence : Option String

pub record LocalizedTask : Type 0 where
  pub task_id : String
  pub block_kind : String
  pub failure_kind : FailureKind
  pub block_text : String
  pub entry_checkpoint : EntryCheckpoint
  pub metadata : TaskMetadata
  pub fallback_candidates : List RepairBlockCandidate

-- The budgets are never negative in the source.
pub record TaskSpec : Type 0 where
  pub theory_run_id : String
  pub task : LocalizedTask
  pub block_contract : BlockContract
  pub max_actions : ℕ
  pub max_validations : ℕ
  pub timeout_ms : ℕ

-- `candidate_source_metadata`
pub record SourceMetadata : Type 0 where
  pub allow_sledgehammer : Option Bool
  pub strategy : String

-- `details` of a validation
pub record ValidationDetails : Type 0 where
  pub contract : Option BlockContract
  pub block_kind : Option String
  pub candidate_source : Option String
  pub candidate_text : Option String
  pub candidate_source_metadata : Option SourceMetadata
  pub fallback_chain : Option (List String)

pub record ValidationResult : Type 0 where
  pub status : ValidationStatus
  pub reason : String
  pub details : ValidationDetails

abbrev pub no_details : ValidationDetails
no_details = record {
  contract = none;
  block_kind = none;
  candidate_source = none;
  candidate_text = none;
  candidate_source_metadata = none;
  fallback_chain = none;
}

-- `trace_counts`. A missing key is read as 0.
pub record TraceCounts : Type 0 where
  pub inspect : ℕ
  pub propose : ℕ
  pub validate : ℕ

abbrev pub no_counts : TraceCounts
no_counts = record { inspect = 0; propose = 0; validate = 0 }

pub record TaskResult : Type 0 where
  pub task_id : String
  pub outcome : TaskOutcome
  pub artifact_kind : Option ArtifactKind
  pub artifact_text : Option String
  pub requires_rerun : Bool
  pub validation : Option ValidationResult
  pub trace_summary : String
  pub trace_counts : TraceCounts
  pub attempted_candidates : List String
  pub selected_generator : Option String
  pub selected_block_kind : Option String
  pub fallback_depth : ℕ
  pub fallback_origin : Option String
  pub fallback_target_contract : Option BlockContract
  pub localization_confidence : Option String

-- `TaskResult(task_id=…, outcome=…)`: every other field has its default.
abbrev pub bare_result : String → TaskOutcome → TaskResult
bare_result task_id outcome = record {
  task_id = task_id;
  outcome = outcome;
  artifact_kind = none;
  artifact_text = none;
  requires_rerun = false;
  validation = none;
  trace_summary = "";
  trace_counts = no_counts;
  attempted_candidates = [];
  selected_generator = none;
  selected_block_kind = none;
  fallback_depth = 0;
  fallback_origin = none;
  fallback_target_contract = none;
  localization_confidence = none;
}
