-- ===== src/Orchestrator/Contexts.antt =====
-- What the orchestrator makes of a task and its result: the continuation, the line of the command, and
-- the contexts that the policy and the reviewer are given.
use isabelle_repl.Base.{
  or_text, ltb, ℤ, Bool, true, false, ◌&&◌, Option, none, some, List, [], ◌∷◌, if◌then◌else◌,
  string_eq, or_default,
}
use isabelle_repl.Model.{
  committed_placeholder, ContinuationKind, continue, rerun_then_continue, policy_triggered,
  InterventionResponseKind, approve_current_artifact, reject_current_artifact,
  provide_replacement_artifact, request_committed_placeholder, request_stop, RawInt, readable,
  unreadable, TaskSpec, TaskResult, task_artifact_evaluation, continuation_gate,
  review_placeholder_request, ReviewReason, PolicyContext, PolicyDecision, InterventionContext,
  ContinuationSelection, accepted_artifact,
}
use isabelle_repl.Orchestrator.State.{Parts}

-- `_continuation_for_result`
abbrev pub continuation_for_result : TaskResult → ContinuationSelection
continuation_for_result r = record {
  kind = if r.requires_rerun then rerun_then_continue else continue;
  reason = accepted_artifact;
}

abbrev is_rerun : ContinuationKind → Bool
is_rerun rerun_then_continue = true
is_rerun _ = false

-- `_requires_continuation_gate`
abbrev pub requires_continuation_gate : TaskResult → ContinuationSelection → Bool
requires_continuation_gate r c = is_rerun c.kind && ltb 0 r.fallback_depth

-- `int(raw)`, or `None` where it raises
abbrev int_or_none : RawInt → Option ℤ
int_or_none (readable n) = some n
int_or_none unreadable = none

abbrev first_line : Option RawInt → Option RawInt → Option ℤ
first_line (some raw) other = int_or_none raw
first_line none (some raw) = int_or_none raw
first_line none none = none

-- `_command_line_for_task`
abbrev pub command_line_for_task : TaskSpec → Option ℤ
command_line_for_task spec = first_line spec.task.metadata.line spec.task.metadata.command_line

-- The five kinds that `_enter_review` allows when it is given none.
abbrev pub all_response_kinds : List InterventionResponseKind
all_response_kinds =
    approve_current_artifact ∷ reject_current_artifact ∷ provide_replacement_artifact
    ∷ request_committed_placeholder ∷ request_stop ∷ []

abbrev pub placeholder_response_kinds : List InterventionResponseKind
placeholder_response_kinds = approve_current_artifact ∷ reject_current_artifact ∷ request_stop ∷ []

abbrev pub continuation_response_kinds : List InterventionResponseKind
continuation_response_kinds = approve_current_artifact ∷ request_stop ∷ []

abbrev pub review_context :
    TaskResult → PolicyDecision → ReviewReason → List InterventionResponseKind → InterventionContext
review_context r d reason allowed = record {
  trigger_source = policy_triggered;
  reason_code = reason;
  task_id = r.task_id;
  current_artifact_text = r.artifact_text;
  current_artifact_kind = r.artifact_kind;
  policy_decision = some d;
  validation = r.validation;
  allowed_response_kinds = allowed;
}

module _ {W : Type 0} (parts : Parts W) where
  -- The policy context of a result under review.
  abbrev pub result_context : TaskSpec → TaskResult → Option ContinuationKind → PolicyContext
  result_context spec r kind = record {
    theory_run_id = parts.theory_run_id;
    task_id = r.task_id;
    failure_kind = spec.task.failure_kind;
    block_kind = or_text (or_default r.selected_block_kind "") spec.task.block_kind;
    artifact_kind = r.artifact_kind;
    reason_code = elim kind [
      | none ↦ some task_artifact_evaluation
      | some k ↦ some continuation_gate
    ];
    is_placeholder_request = false;
    fallback_depth = r.fallback_depth;
    fallback_origin = r.fallback_origin;
    localization_confidence = r.localization_confidence;
    continuation_kind = kind;
  }

  abbrev pub placeholder_context : TaskSpec → TaskResult → PolicyContext
  placeholder_context spec r = record {
    theory_run_id = parts.theory_run_id;
    task_id = r.task_id;
    failure_kind = spec.task.failure_kind;
    block_kind = spec.task.block_kind;
    artifact_kind = some committed_placeholder;
    reason_code = some review_placeholder_request;
    is_placeholder_request = true;
    fallback_depth = 0;
    fallback_origin = none;
    localization_confidence = none;
    continuation_kind = none;
  }
