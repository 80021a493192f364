-- ===== src/Policy/Loader/Laws.antt =====
-- What every loaded configuration satisfies, and the round trip through a printed table.
use isabelle_repl.Base.{
  ◌≡◌, ◌≢◌, refl, String, true, false, some, List, [], ◌∷◌, arith, strip, map, truthy, contains,
  string_eq, All,
}
use isabelle_repl.Model.{
  FailureKind, PolicyDecisionScope, proof_body_failure, statement_failure,
  non_proof_command_failure, theory_load_or_header_failure, action_permission, artifact_acceptance,
  continuation_gating, failure_kind_value, scope_value, failure_kind_eq,
}
use isabelle_repl.Policy.Config.{PlaceholderPolicyMode, PolicyRuleIds, PolicyConfig, rule_id_values}
use isabelle_repl.Policy.Decisions.{distinct}
use isabelle_repl.Policy.Loader.{
  text, array, table, TomlItems, end, item, TomlFields, nil, field, Loaded, ok, err, ◌>>=◌,
  parse_policy_config, parse_rule_ids, parse_failure_kinds, parse_failure_kind, parse_scope,
  parse_mode, expect_string, as_text, expect_table, require_kinds, expect_list_of_strings, get,
  item_texts,
}

-- Inversion of a successful step.
bind-ok {ℓ κ} :
    {A : Type ℓ} {B : Type κ} (m : Loaded A) (f : A → Loaded B) {b : B}
    → (m >>= f) ≡ ok b
    → (a : A) × (m ≡ ok a) × (f a ≡ ok b)
bind-ok (ok a) f h = (a, refl, h)
bind-ok (err e) f h = cc

-- Every loaded configuration has distinct rule ids.
pub parse_policy_config-distinct :
    (raw : TomlFields) (c : PolicyConfig)
    → parse_policy_config raw ≡ ok c
    → distinct (rule_id_values c.rule_ids) ≡ true
unfolding parse_policy_config
parse_policy_config-distinct raw c h =
    let (policy, _, h₁) = bind-ok (expect_table raw "policy") _ h in
    let (placeholder, _, h₂) = bind-ok (expect_table raw "placeholder") _ h₁ in
    let (ids_table, _, h₃) = bind-ok (expect_table raw "rule_ids") _ h₂ in
    let (listed, _, h₄) = bind-ok (expect_list_of_strings policy "high_risk_failure_kinds") _ h₃ in
    let (values, _, h₅) = bind-ok (require_kinds listed) _ h₄ in
    let (kinds, _, h₆) = bind-ok (parse_failure_kinds values) _ h₅ in
    let (scope_text, _, h₇) = bind-ok (expect_string policy "default_scope") _ h₆ in
    let (scope, _, h₈) = bind-ok (parse_scope scope_text) _ h₇ in
    let (mode_text, _, h₉) = bind-ok (expect_string placeholder "mode") _ h₈ in
    let (mode, _, h₁₀) = bind-ok (parse_mode mode_text) _ h₉ in
    let (ids, _, h₁₁) = bind-ok (parse_rule_ids ids_table) _ h₁₀ in ground arith

-- A table that holds a configuration.
print_kinds : List FailureKind → TomlItems
print_kinds [] = end
print_kinds (k ∷ ks) = item (text (failure_kind_value k)) (print_kinds ks)

abbrev mode_value : PlaceholderPolicyMode → String
mode_value PlaceholderPolicyMode.allow = "allow"
mode_value PlaceholderPolicyMode.deny = "deny"
mode_value PlaceholderPolicyMode.requires_review = "requires_review"

abbrev print_ids : PolicyRuleIds → TomlFields
print_ids ids =
    field "high_risk_failure_requires_review" (text ids.high_risk_failure_requires_review) (
      field "placeholder_allow" (text ids.placeholder_allow) (
        field "placeholder_deny" (text ids.placeholder_deny) (
          field "placeholder_requires_review" (text ids.placeholder_requires_review) (
            field "fallback_acceptance_requires_review"
              (text ids.fallback_acceptance_requires_review)
              (field "fallback_continuation_requires_review"
                (text ids.fallback_continuation_requires_review)
                (field "default_allow" (text ids.default_allow) nil))))))

unfoldable pub print_config : PolicyConfig → TomlFields
unfolding print_kinds
print_config c =
    field "policy"
      (table (
        field "high_risk_failure_kinds" (array (print_kinds c.high_risk_failure_kinds))
          (field "default_scope" (text (scope_value c.default_scope)) nil)))
      (field "placeholder" (table (field "mode" (text (mode_value c.placeholder.mode)) nil))
        (field "rule_ids" (table (print_ids c.rule_ids)) nil))

-- The text is not empty, and no space stands at its ends.
abbrev pub IsTrimmed : String → Type 0
IsTrimmed t = (strip t ≡ t) × (truthy t ≡ true)

abbrev pub NoRepeats : List FailureKind → Type 0
NoRepeats [] = Unit
NoRepeats (k ∷ ks) = (contains ks k ≡ false) × NoRepeats ks

item_texts-print_kinds :
    (ks : List FailureKind) → item_texts (print_kinds ks) ≡ some (map failure_kind_value ks)
unfolding item_texts print_kinds
item_texts-print_kinds [] = refl
item_texts-print_kinds (k ∷ ks) = ground (arith, item_texts-print_kinds ks)

parse_failure_kind-value : (k : FailureKind) → parse_failure_kind (failure_kind_value k) ≡ ok k
unfolding parse_failure_kind string_eq
parse_failure_kind-value proof_body_failure = refl
parse_failure_kind-value statement_failure = refl
parse_failure_kind-value non_proof_command_failure = refl
parse_failure_kind-value theory_load_or_header_failure = refl

parse_failure_kinds-values :
    (ks : List FailureKind) → NoRepeats ks → parse_failure_kinds (map failure_kind_value ks) ≡ ok ks
unfolding parse_failure_kinds
parse_failure_kinds-values [] h = refl
parse_failure_kinds-values (k ∷ ks) h =
    rw (parse_failure_kind-value k, parse_failure_kinds-values ks h.1, h.0)

parse_scope-value : (s : PolicyDecisionScope) → parse_scope (scope_value s) ≡ ok s
unfolding parse_scope string_eq
parse_scope-value action_permission = refl
parse_scope-value artifact_acceptance = refl
parse_scope-value continuation_gating = refl

parse_mode-value : (m : PlaceholderPolicyMode) → parse_mode (mode_value m) ≡ ok m
unfolding parse_mode string_eq
parse_mode-value PlaceholderPolicyMode.allow = refl
parse_mode-value PlaceholderPolicyMode.deny = refl
parse_mode-value PlaceholderPolicyMode.requires_review = refl

as_text-trimmed : (key t : String) → IsTrimmed t → as_text key (some (text t)) ≡ ok t
as_text-trimmed key t h = rw (h.0, h.1)

parse_rule_ids-print :
    (ids : PolicyRuleIds)
    → All IsTrimmed (rule_id_values ids)
    → parse_rule_ids (print_ids ids) ≡ ok ids
unfolding parse_rule_ids get string_eq
parse_rule_ids-print ids (a, (b, (c, (d, (e, (f, (g, _))))))) =
    rw (a.0, a.1, b.0, b.1, c.0, c.1, d.0, d.1, e.0, e.1, f.0, f.1, g.0, g.1)

-- What the loader accepts in a configuration: at least one high risk and none twice, and rule ids
-- that are trimmed and distinct.
pub record IsLoadable (c : PolicyConfig) : Type 0 where
  pub some_risk : c.high_risk_failure_kinds ≢ []
  pub risks_differ : NoRepeats c.high_risk_failure_kinds
  pub ids_trimmed : All IsTrimmed (rule_id_values c.rule_ids)
  pub ids_differ : distinct (rule_id_values c.rule_ids) ≡ true

require_kinds-values :
    (ks : List FailureKind)
    → ks ≢ []
    → require_kinds (map failure_kind_value ks) ≡ ok (map failure_kind_value ks)
require_kinds-values [] h = absurd (h refl)
require_kinds-values (k ∷ ks) h = refl

scope_value-IsTrimmed : (s : PolicyDecisionScope) → IsTrimmed (scope_value s)
unfolding strip
scope_value-IsTrimmed action_permission = (refl, refl)
scope_value-IsTrimmed artifact_acceptance = (refl, refl)
scope_value-IsTrimmed continuation_gating = (refl, refl)

mode_value-IsTrimmed : (m : PlaceholderPolicyMode) → IsTrimmed (mode_value m)
unfolding strip
mode_value-IsTrimmed PlaceholderPolicyMode.allow = (refl, refl)
mode_value-IsTrimmed PlaceholderPolicyMode.deny = (refl, refl)
mode_value-IsTrimmed PlaceholderPolicyMode.requires_review = (refl, refl)

-- Loading the table that prints a loadable configuration gives that configuration back.
pub parse_policy_config-print_config :
    (c : PolicyConfig) → IsLoadable c → parse_policy_config (print_config c) ≡ ok c
unfolding parse_policy_config print_config get string_eq
parse_policy_config-print_config c h = rw (
  item_texts-print_kinds c.high_risk_failure_kinds,
  require_kinds-values c.high_risk_failure_kinds h.some_risk,
  parse_failure_kinds-values c.high_risk_failure_kinds h.risks_differ,
  as_text-trimmed "default_scope" (scope_value c.default_scope)
      (scope_value-IsTrimmed c.default_scope),
  parse_scope-value c.default_scope,
  as_text-trimmed "mode" (mode_value c.placeholder.mode) (mode_value-IsTrimmed c.placeholder.mode),
  parse_mode-value c.placeholder.mode,
  parse_rule_ids-print c.rule_ids h.ids_trimmed,
  h.ids_differ,
)
