-- ===== src/Tests/Parsing.antt =====
-- The snapshot, the policy and its configuration, and the guard of responses.
use isabelle_repl.Base.{
  ℕ, ℤ, pos, int_eq, ◌≡◌, ◌≢◌, ◌↔◌, ◌⊎◌, refl, String, true, false, none, some, Option, List, [],
  ◌∷◌, get_elem?, contains, splitlines, ◌==◌, if◌then◌else◌, string_eq, length, All,
}
use isabelle_repl.Model.{
  repair, statement_failure, proof_body_failure, provide_replacement_artifact,
  reject_current_artifact, failure_kind_eq, response_kind_eq, PolicyContext, deny, request_stop,
  request_committed_placeholder, approve_current_artifact, InterventionContext,
  InterventionResponse, policy_triggered, policy_requires_review,
}
use isabelle_repl.Snapshot.{
  Snapshot, new_snapshot, apply_artifact_at, replacement_for_line, patched_lines,
}
use isabelle_repl.Snapshot.Rendering.{over, length-patched_lines}
use isabelle_repl.Snapshot.Edits.{
  replacement_for_line-apply_artifact_at, patched_lines-replacement_for_line,
}
use isabelle_repl.Policy.{default_config, rule_id_values, PlaceholderPolicyMode, decide, is_repair}
use isabelle_repl.Policy.Decisions.{
  decide_denies, decide_allows, asks_placeholder, audited_kind-decide, audited_kind, distinct,
}
use isabelle_repl.Policy.Loader.{parse_policy_config, ok}
use isabelle_repl.Policy.Loader.Laws.{
  print_config, IsLoadable, parse_policy_config-distinct, parse_policy_config-print_config,
}
use isabelle_repl.Hooks.{
  validate_intervention_response, validate_intervention_response_cases, truthy_text,
}

abbrev test_snapshot : Snapshot
test_snapshot = new_snapshot "A.thy" "theory A\nlemma a\nby simp\nend"

abbrev patched_snapshot : Snapshot
patched_snapshot = apply_artifact_at repair "by auto" (some "task-1") (pos 3) none test_snapshot

replacement_for_line-apply_artifact_at_example :
    replacement_for_line patched_snapshot (pos 3)
    ≡ (if pos 3 == pos 3 then some "by auto" else replacement_for_line test_snapshot (pos 3))
replacement_for_line-apply_artifact_at_example =
    replacement_for_line-apply_artifact_at repair "by auto" (some "task-1") (pos 3) none
      test_snapshot (pos 3)

patched_lines-replacement_for_line_example :
    get_elem? (patched_lines patched_snapshot.original_text patched_snapshot.applied_replacements) 2
    ≡ over
        (replacement_for_line patched_snapshot (pos 3))
        (get_elem? (splitlines patched_snapshot.original_text) 2)
patched_lines-replacement_for_line_example = patched_lines-replacement_for_line patched_snapshot 2

length-patched_lines_example :
    length (patched_lines "a\nb" patched_snapshot.applied_replacements) ≡ length (splitlines "a\nb")
length-patched_lines_example = length-patched_lines "a\nb" patched_snapshot.applied_replacements

abbrev test_context : PolicyContext
test_context = record {
  theory_run_id = "run-1";
  task_id = "task-1";
  failure_kind = statement_failure;
  block_kind = "TerminalProofStepBlock";
  artifact_kind = some repair;
  reason_code = none;
  is_placeholder_request = true;
  fallback_depth = 0;
  fallback_origin = none;
  localization_confidence = none;
  continuation_kind = none;
}

decide_denies_example : ((decide default_config test_context).kind ≡ deny) ↔ (
    (asks_placeholder test_context ≡ true)
    × (default_config.placeholder.mode ≡ PlaceholderPolicyMode.deny))
decide_denies_example = decide_denies default_config test_context

audited_kind-decide_example :
    audited_kind default_config.rule_ids (decide default_config test_context).triggered_rule_ids
    ≡ (decide default_config test_context).kind
unfolding string_eq
audited_kind-decide_example = audited_kind-decide default_config test_context refl

pub default-IsLoadable : IsLoadable default_config
unfolding string_eq isabelle_repl.Base.strip isabelle_repl.Model.failure_kind_eq
default-IsLoadable = record {
  some_risk = λ e. cc;
  risks_differ = (refl, (refl, (refl, tt)));
  ids_trimmed = (
    (refl, refl),
    (
      (refl, refl),
      ((refl, refl), ((refl, refl), ((refl, refl), ((refl, refl), ((refl, refl), tt))))),
    ),
  );
  ids_differ = refl;
}

parse_policy_config-print_config_example :
    parse_policy_config (print_config default_config) ≡ ok default_config
parse_policy_config-print_config_example =
    parse_policy_config-print_config default_config default-IsLoadable

parse_policy_config-distinct_example : distinct (rule_id_values default_config.rule_ids) ≡ true
parse_policy_config-distinct_example =
    parse_policy_config-distinct (print_config default_config) default_config
      (parse_policy_config-print_config default_config default-IsLoadable)

abbrev stop_context : InterventionContext
stop_context = record {
  trigger_source = policy_triggered;
  reason_code = policy_requires_review;
  task_id = "task-1";
  current_artifact_text = some "by auto";
  current_artifact_kind = some repair;
  policy_decision = none;
  validation = none;
  allowed_response_kinds = approve_current_artifact ∷ request_stop ∷ [];
}

abbrev placeholder_response : InterventionResponse
placeholder_response = record {
  kind = request_committed_placeholder;
  replacement_artifact_text = none;
  invalid_response_reason = none;
  original_response_kind = none;
}

validate_intervention_response_cases_example :
    let guarded =
      validate_intervention_response (λ kinds. kinds) stop_context placeholder_response in
    ((guarded.response ≡ placeholder_response)
      × (guarded.invalid_response_reason ≡ none)
      × (contains stop_context.allowed_response_kinds request_committed_placeholder ≡ true)
      × (request_committed_placeholder ≡ provide_replacement_artifact → truthy_text none ≡ true))
    ⊎ ((guarded.response.kind ≡ reject_current_artifact)
        × (guarded.response.invalid_response_reason ≡ guarded.invalid_response_reason)
        × (guarded.response.original_response_kind ≡ some request_committed_placeholder)
        × ((reason : String) × (guarded.invalid_response_reason ≡ some reason)))
validate_intervention_response_cases_example =
    validate_intervention_response_cases (λ kinds. kinds) stop_context placeholder_response

abbrev plain_context : PolicyContext
plain_context = record test_context {
  failure_kind = proof_body_failure;
  is_placeholder_request = false;
}

decide_allows_example :
    (contains default_config.high_risk_failure_kinds plain_context.failure_kind ≡ false)
    × ((is_repair plain_context.artifact_kind ≡ true) → plain_context.fallback_depth ≡ 0)
unfolding decide failure_kind_eq
decide_allows_example = decide_allows default_config plain_context refl refl
