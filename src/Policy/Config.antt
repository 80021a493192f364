-- ===== src/Policy/Config.antt =====
-- python/src/isabelle_repair/policy/config.py
use isabelle_repl.Base.{String, List, [], ◌∷◌}
use isabelle_repl.Model.{
  FailureKind, statement_failure, non_proof_command_failure, theory_load_or_header_failure,
  PolicyDecisionScope, artifact_acceptance,
}

pub data PlaceholderPolicyMode : Type 0 where
  allow deny requires_review : PlaceholderPolicyMode

pub record PolicyRuleIds : Type 0 where
  pub high_risk_failure_requires_review : String
  pub placeholder_allow : String
  pub placeholder_deny : String
  pub placeholder_requires_review : String
  pub fallback_acceptance_requires_review : String
  pub fallback_continuation_requires_review : String
  pub default_allow : String

pub record PlaceholderPolicyConfig : Type 0 where
  pub mode : PlaceholderPolicyMode

-- The set of failure kinds is the list of its members.
pub record PolicyConfig : Type 0 where
  pub high_risk_failure_kinds : List FailureKind
  pub default_scope : PolicyDecisionScope
  pub placeholder : PlaceholderPolicyConfig
  pub rule_ids : PolicyRuleIds

-- `PolicyRuleIds()`
abbrev pub default_rule_ids : PolicyRuleIds
default_rule_ids = record {
  high_risk_failure_requires_review = "high_risk_failure_requires_review";
  placeholder_allow = "placeholder_allow";
  placeholder_deny = "placeholder_deny";
  placeholder_requires_review = "placeholder_requires_review";
  fallback_acceptance_requires_review = "fallback_acceptance_requires_review";
  fallback_continuation_requires_review = "fallback_continuation_requires_review";
  default_allow = "default_allow";
}

-- `PolicyConfig()`
abbrev pub default_config : PolicyConfig
default_config = record {
  high_risk_failure_kinds =
      statement_failure ∷ non_proof_command_failure ∷ theory_load_or_header_failure ∷ [];
  default_scope = artifact_acceptance;
  placeholder = record { mode = PlaceholderPolicyMode.allow };
  rule_ids = default_rule_ids;
}

-- The seven rule ids, in the order of `_validate_rule_ids`.
abbrev pub rule_id_values : PolicyRuleIds → List String
rule_id_values ids =
    ids.high_risk_failure_requires_review ∷ ids.placeholder_allow ∷ ids.placeholder_deny
    ∷ ids.placeholder_requires_review ∷ ids.fallback_acceptance_requires_review
    ∷ ids.fallback_continuation_requires_review ∷ ids.default_allow ∷ []
