-- ===== src/Model/Kinds.antt =====
-- The enumerations of python/src/isabelle_repair/model/types.py, with the `value` of those whose
-- text the code uses.
use isabelle_repl.Base.{String, Eq}

pub data RunState : Type 0 where
  active awaiting_review stopped completed finished : RunState

pub data RunMode : Type 0 where
  theory_wide target_boundary : RunMode

pub data ContinuationKind : Type 0 where
  continue rerun_then_continue stop : ContinuationKind

pub data FailureKind : Type 0 where
  proof_body_failure statement_failure non_proof_command_failure : FailureKind
  theory_load_or_header_failure : FailureKind

pub data ArtifactKind : Type 0 where
  repair committed_placeholder : ArtifactKind

pub data TaskOutcome : Type 0 where
  accepted failed placeholder escalated aborted : TaskOutcome

pub data ValidationStatus : Type 0 where
  passed failed_execution failed_contract failed_timeout inconclusive : ValidationStatus

pub data PolicyDecisionKind : Type 0 where
  allow deny requires_review : PolicyDecisionKind

pub data PolicyDecisionScope : Type 0 where
  action_permission artifact_acceptance continuation_gating : PolicyDecisionScope

pub data HookTriggerSource : Type 0 where
  policy_triggered task_triggered : HookTriggerSource

pub data InterventionResponseKind : Type 0 where
  approve_current_artifact reject_current_artifact : InterventionResponseKind
  provide_replacement_artifact request_committed_placeholder : InterventionResponseKind
  request_stop : InterventionResponseKind

pub data BlockContract : Type 0 where
  goal_closed subproof_closed theorem_closed context_updated : BlockContract

FailureKind-discrete : Discrete FailureKind
FailureKind-discrete = hlevel

instance unfoldable pub failure_kind_eq : Eq FailureKind
unfolding FailureKind-discrete
failure_kind_eq = record { dec = FailureKind-discrete }

InterventionResponseKind-discrete : Discrete InterventionResponseKind
InterventionResponseKind-discrete = hlevel

instance unfoldable pub response_kind_eq : Eq InterventionResponseKind
unfolding InterventionResponseKind-discrete
response_kind_eq = record { dec = InterventionResponseKind-discrete }

-- `kind.value`
abbrev pub failure_kind_value : FailureKind → String
failure_kind_value proof_body_failure = "proof_body_failure"
failure_kind_value statement_failure = "statement_failure"
failure_kind_value non_proof_command_failure = "non_proof_command_failure"
failure_kind_value theory_load_or_header_failure = "theory_load_or_header_failure"

abbrev pub scope_value : PolicyDecisionScope → String
scope_value action_permission = "action_permission"
scope_value artifact_acceptance = "artifact_acceptance"
scope_value continuation_gating = "continuation_gating"

abbrev pub response_kind_value : InterventionResponseKind → String
response_kind_value approve_current_artifact = "approve_current_artifact"
response_kind_value reject_current_artifact = "reject_current_artifact"
response_kind_value provide_replacement_artifact = "provide_replacement_artifact"
response_kind_value request_committed_placeholder = "request_committed_placeholder"
response_kind_value request_stop = "request_stop"

abbrev pub outcome_value : TaskOutcome → String
outcome_value accepted = "accepted"
outcome_value failed = "failed"
outcome_value placeholder = "placeholder"
outcome_value escalated = "escalated"
outcome_value aborted = "aborted"
