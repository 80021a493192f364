-- ===== src/Model/Records.antt =====
-- Run records of python/src/isabelle_repair/model/types.py, with the payloads that the orchestrator
-- and the run write, and the snapshot's metadata that some of them hold.
use isabelle_repl.Base.{ℕ, ℤ, String, Option, List}
use isabelle_repl.Model.Kinds.{
  RunState, RunMode, ArtifactKind, TaskOutcome, ValidationStatus, PolicyDecisionKind,
  PolicyDecisionScope, InterventionResponseKind, BlockContract,
}
use isabelle_repl.Model.Reviews.{PolicyReason, ReviewReason, ContinuationSelection, TerminalReason}

-- `last_failure_digest`
pub record FailureDigest : Type 0 where
  pub reason : Option String
  pub command_line : Option ℤ
  pub command_kind : Option String
  pub error_msg : Option String
  pub error : Option String
  pub entry_mode : Option String
  pub entry_proof_level : Option ℤ
  pub drift_fallback_reason : Option String
  pub anchor_state_id : Option String
  pub command_cursor : Option ℤ

-- `WorkingTheorySnapshot.to_metadata()`
pub record SnapshotMetadata : Type 0 where
  pub anchor_state_id : Option String
  pub command_cursor : ℤ
  pub mode : Option String
  pub proof_level : Option ℤ
  pub applied_replacement_count : ℕ
  pub last_failure_digest : Option FailureDigest

-- A dict of `export_patch_provenance_links()`
pub record PatchLink : Type 0 where
  pub patch_entry_id : String
  pub task_id : Option String
  pub artifact_record_id : Option String

-- What a task record and an artifact record both say of a result.
pub record ResultSummary : Type 0 where
  pub selected_generator : Option String
  pub validation_status : Option ValidationStatus
  pub selected_block_kind : Option String
  pub fallback_depth : ℕ
  pub fallback_origin : Option String
  pub fallback_target_contract : Option BlockContract
  pub localization_confidence : Option String
  pub snapshot : SnapshotMetadata

-- RunRecordKind, each kind with its payload. The two provenance payloads have constructors of their
-- own.
pub data RecordPayload : Type 0 where
  run_metadata :
      (theory_path : String) (theory_text_bytes : ℕ) (run_mode : RunMode)
      (target_max_tasks : Option ℤ)
      → RecordPayload
  task :
      TaskOutcome
      → (block_kind : String) (localizer_drift_reason : Option String) → ResultSummary
      → RecordPayload
  artifact :
      Option ArtifactKind
      → (artifact_text : Option String) (attempted_candidates : List String) → ResultSummary
      → RecordPayload
  policy_decision :
      PolicyDecisionKind
      → PolicyDecisionScope
      → (triggered_rule_ids : List String) → Option PolicyReason
      → RecordPayload
  intervention :
      ReviewReason
      → (allowed_response_kinds : List InterventionResponseKind)
      → (response_kind : Option InterventionResponseKind) (invalid_response_reason : Option String)
      → RecordPayload
  continuation : ContinuationSelection → RecordPayload
  provenance : RecordPayload
  patch_provenance :
      (unified_diff_path json_patch_path : String) (entries : List PatchLink) → RecordPayload
  terminal :
      RunState
      → TerminalReason
      → RunMode
      → (target_max_tasks : Option ℤ) → (accepted_artifact_count : ℕ) → RecordPayload

pub record RunRecord : Type 0 where
  pub schema_version : String
  pub record_id : String
  pub theory_run_id : String
  pub timestamp : String
  pub run_local_sequence_number : ℕ
  pub task_id : Option String
  pub payload : RecordPayload
