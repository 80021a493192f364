-- ===== src/Model/Reviews.antt =====
-- Policy decisions and reviews of python/src/isabelle_repair/model/types.py. A reason code is a text
-- literal in the source and a constructor here.
use isabelle_repl.Base.{ℕ, String, Bool, Option, List}
use isabelle_repl.Model.Kinds.{
  FailureKind, ArtifactKind, ContinuationKind, PolicyDecisionKind, PolicyDecisionScope,
  HookTriggerSource, InterventionResponseKind,
}
use isabelle_repl.Model.Tasks.{TaskSpec, ValidationResult}

-- The reason codes of policy contexts.
pub data PolicyReason : Type 0 where
  task_artifact_evaluation continuation_gate review_placeholder_request : PolicyReason

-- The reason codes of reviews.
pub data ReviewReason : Type 0 where
  policy_requires_review task_escalated_requires_review : ReviewReason
  placeholder_policy_requires_review continuation_policy_requires_review : ReviewReason

pub record PolicyContext : Type 0 where
  pub theory_run_id : String
  pub task_id : String
  pub failure_kind : FailureKind
  pub block_kind : String
  pub artifact_kind : Option ArtifactKind
  pub reason_code : Option PolicyReason
  pub is_placeholder_request : Bool
  pub fallback_depth : ℕ
  pub fallback_origin : Option String
  pub localization_confidence : Option String
  pub continuation_kind : Option ContinuationKind

pub record PolicyDecision : Type 0 where
  pub kind : PolicyDecisionKind
  pub scope : PolicyDecisionScope
  pub triggered_rule_ids : List String

pub record InterventionContext : Type 0 where
  pub trigger_source : HookTriggerSource
  pub reason_code : ReviewReason
  pub task_id : String
  pub current_artifact_text : Option String
  pub current_artifact_kind : Option ArtifactKind
  pub policy_decision : Option PolicyDecision
  pub validation : Option ValidationResult
  pub allowed_response_kinds : List InterventionResponseKind

-- `metadata` of a response: the two keys that the guard writes
pub record InterventionResponse : Type 0 where
  pub kind : InterventionResponseKind
  pub replacement_artifact_text : Option String
  pub invalid_response_reason : Option String
  pub original_response_kind : Option InterventionResponseKind

-- The reviewed TaskResult is shared with the method that entered the review: the run's state holds
-- that object (`current_result`), and the pending review the rest.
pub record PendingReview : Type 0 where
  pub task_spec : TaskSpec
  pub context : InterventionContext

pub data ContinuationReason : Type 0 where
  accepted_artifact task_failed hook_requested_stop continuation_denied : ContinuationReason

pub record ContinuationSelection : Type 0 where
  pub kind : ContinuationKind
  pub reason : ContinuationReason

-- The texts of `terminal_reason`.
pub data TerminalReason : Type 0 where
  stopped_task_failed stopped_by_review_stop stopped_continuation_denied : TerminalReason
  target_boundary_completed theory_wide_finished : TerminalReason
