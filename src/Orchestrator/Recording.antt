-- ===== src/Orchestrator/Recording.antt =====
-- The `_record_…` methods of the orchestrator.
use isabelle_repl.Base.{
  String, Option, none, some, List, [], ◌∷◌, ◌++◌, Action, return, pure, gets, modify, ◌>>=◌, ◌>>◌,
}
use mathlib.Core.Option
use isabelle_repl.Model.{
  ContinuationSelection, InterventionResponseKind, PolicyDecision, PolicyReason, ReviewReason,
  ResultSummary, TaskResult, RecordPayload, RunRecord, SnapshotMetadata,
}
use isabelle_repl.Model.{
  task, artifact, policy_decision, intervention, continuation, provenance, terminal, TerminalReason,
}
use isabelle_repl.Records.{create, append_all}
use isabelle_repl.Snapshot.{to_metadata, attach_artifact_record_id}
use isabelle_repl.Orchestrator.State.{
  Parts, Orchestrator, EventPayload, continuation_selected, emit,
}

abbrev pub summary : TaskResult → SnapshotMetadata → ResultSummary
summary r metadata = record {
  selected_generator = r.selected_generator;
  validation_status = Option.map (λ v. v.status) r.validation;
  selected_block_kind = r.selected_block_kind;
  fallback_depth = r.fallback_depth;
  fallback_origin = r.fallback_origin;
  fallback_target_contract = r.fallback_target_contract;
  localization_confidence = r.localization_confidence;
  snapshot = metadata;
}

module _ {W : Type 0} (parts : Parts W) where
  -- `_append_record(record_factory.create(…))`, which appends to the record store
  unfoldable pub append_record : Option String → RecordPayload → Action (Orchestrator W) RunRecord
  unfolding create
  append_record task_id payload s =
      let (r, factory) = create parts.stamps s.record_factory task_id payload in
      (
        return r,
        record s {
          record_factory = factory;
          record_store = append_all parts.dumps_record s.record_store r;
          records = s.records ++ r ∷ [];
        },
      )

  unfoldable pub record_task :
      TaskResult → String → Option String → Action (Orchestrator W) RunRecord
  record_task r block_kind drift = do
    metadata ← gets (λ s. to_metadata s.snapshot)
    append_record (some r.task_id) (task r.outcome block_kind drift (summary r metadata))

  -- The record id goes into the patch entry of the task.
  unfoldable pub record_artifact : TaskResult → Action (Orchestrator W) (Unit {0})
  record_artifact r = do
    metadata ← gets (λ s. to_metadata s.snapshot)
    new ←
        append_record (some r.task_id)
          (artifact r.artifact_kind r.artifact_text r.attempted_candidates (summary r metadata))
    modify
        (λ s. record s { snapshot = attach_artifact_record_id r.task_id new.record_id s.snapshot })

  unfoldable pub record_policy :
      String → PolicyDecision → PolicyReason → Action (Orchestrator W) RunRecord
  record_policy task_id d reason =
      append_record (some task_id)
        (policy_decision d.kind d.scope d.triggered_rule_ids (some reason))

  -- `_emit_policy_decision` and `_record_policy`, which the code always calls together.
  unfoldable pub note_policy :
      String → PolicyDecision → PolicyReason → Action (Orchestrator W) RunRecord
  note_policy task_id d reason = do
    emit parts (some task_id) (EventPayload.policy_decision d)
    record_policy task_id d reason

  unfoldable pub record_intervention :
      String
      → ReviewReason
      → List InterventionResponseKind
      → Option InterventionResponseKind
      → Option String
      → Action (Orchestrator W) RunRecord
  record_intervention task_id reason allowed kind invalid =
      append_record (some task_id) (intervention reason allowed kind invalid)

  unfoldable pub record_continuation :
      String → ContinuationSelection → Action (Orchestrator W) RunRecord
  record_continuation task_id selection = do
    emit parts (some task_id) (continuation_selected selection)
    append_record (some task_id) (continuation selection)

  unfoldable pub record_provenance : String → Action (Orchestrator W) RunRecord
  record_provenance task_id = append_record (some task_id) provenance

  unfoldable pub record_terminal_for : Option TerminalReason → Action (Orchestrator W) (Unit {0})
  record_terminal_for none = pure tt
  record_terminal_for (some reason) = do
    s ← gets (λ s. s)
    append_record none
        (terminal s.state reason parts.run_mode parts.target_max_tasks s.accepted_artifact_count)
    pure tt

  unfoldable pub record_terminal : Action (Orchestrator W) (Unit {0})
  record_terminal s = record_terminal_for s.terminal_reason s
