-- ===== src/Policy.antt =====
-- The policy gate: python/src/isabelle_repair/policy/config.py and rules.py.
mod Config
pub mod Decisions
pub mod Loader
unfoldable pub use Config.*
use isabelle_repl.Base.{
  ℕ, ltb, Bool, true, false, ◌&&◌, ◌||◌, Option, none, some, List, [], ◌∷◌, contains, is_some,
  if◌then◌else◌,
}
use isabelle_repl.Model.{
  ArtifactKind, repair, committed_placeholder, PolicyReason, continuation_gate, PolicyContext,
  PolicyDecision, PolicyDecisionKind, allow, deny, requires_review, continuation_gating,
  failure_kind_eq,
}

-- `context.artifact_kind == kind`
abbrev pub is_placeholder : Option ArtifactKind → Bool
is_placeholder (some committed_placeholder) = true
is_placeholder _ = false

abbrev pub is_repair : Option ArtifactKind → Bool
is_repair (some repair) = true
is_repair _ = false

-- `context.reason_code == "continuation_gating"`
abbrev pub is_continuation_gate : Option PolicyReason → Bool
is_continuation_gate (some continuation_gate) = true
is_continuation_gate _ = false

placeholder_decision_for : PlaceholderPolicyMode → PolicyConfig → PolicyDecision
placeholder_decision_for PlaceholderPolicyMode.deny config = record {
  kind = deny;
  scope = config.default_scope;
  triggered_rule_ids = config.rule_ids.placeholder_deny ∷ [];
}
placeholder_decision_for PlaceholderPolicyMode.requires_review config = record {
  kind = requires_review;
  scope = config.default_scope;
  triggered_rule_ids = config.rule_ids.placeholder_requires_review ∷ [];
}
placeholder_decision_for PlaceholderPolicyMode.allow config = record {
  kind = allow;
  scope = config.default_scope;
  triggered_rule_ids = config.rule_ids.placeholder_allow ∷ [];
}

placeholder_decision : PolicyConfig → PolicyDecision
unfolding placeholder_decision_for
placeholder_decision config = placeholder_decision_for config.placeholder.mode config

-- `RuleBasedPolicyGate.decide`: the first rule that applies.
unfoldable pub decide : PolicyConfig → PolicyContext → PolicyDecision
unfolding placeholder_decision
decide config context =
    if is_placeholder context.artifact_kind || context.is_placeholder_request
    then placeholder_decision config
    else if is_continuation_gate context.reason_code
        && is_some context.continuation_kind
        && ltb 0 context.fallback_depth
    then (record {
      kind = requires_review;
      scope = continuation_gating;
      triggered_rule_ids = config.rule_ids.fallback_continuation_requires_review ∷ [];
    })
    else if ltb 0 context.fallback_depth && is_repair context.artifact_kind
    then (record {
      kind = requires_review;
      scope = config.default_scope;
      triggered_rule_ids = config.rule_ids.fallback_acceptance_requires_review ∷ [];
    })
    else if contains config.high_risk_failure_kinds context.failure_kind
    then (record {
      kind = requires_review;
      scope = config.default_scope;
      triggered_rule_ids = config.rule_ids.high_risk_failure_requires_review ∷ [];
    })
    else (record {
      kind = allow;
      scope = config.default_scope;
      triggered_rule_ids = config.rule_ids.default_allow ∷ [];
    })
