-- ===== src/Policy/Loader.antt =====
-- python/src/isabelle_repair/policy/config_loader.py: `parse_policy_config` over the parsed TOML.
-- Reading the file and its TOML syntax are the standard library's. A ValueError is a constructor of
-- `LoadError` that keeps the changing parts of the message.
pub mod Laws
pub mod Files
use isabelle_repl.Base.{
  String, Bool, true, false, not, Option, none, some, List, [], ◌∷◌, ◌==◌, strip, truthy, contains,
  if◌then◌else◌, string_eq,
}
use isabelle_repl.Model.{
  FailureKind, proof_body_failure, statement_failure, non_proof_command_failure,
  theory_load_or_header_failure, PolicyDecisionScope, action_permission, artifact_acceptance,
  continuation_gating, failure_kind_eq,
}
use isabelle_repl.Policy.Config.{PlaceholderPolicyMode, PolicyRuleIds, PolicyConfig, rule_id_values}
use isabelle_repl.Policy.Decisions.{distinct}

-- A value of a TOML document. `other` stands for numbers, booleans and dates, which the loader
-- refuses wherever it looks.
mutual
  pub data Toml : Type 0 where
    text : String → Toml
    array : TomlItems → Toml
    table : TomlFields → Toml
    other : Toml

  pub data TomlItems : Type 0 where
    end : TomlItems
    item : Toml → TomlItems → TomlItems

  pub data TomlFields : Type 0 where
    nil : TomlFields
    field : String → Toml → TomlFields → TomlFields

pub data LoadError : Type 0 where
  missing_table not_strings not_text : (key : String) → LoadError
  no_failure_kinds repeated_rule_ids : LoadError
  invalid_failure_kind invalid_scope invalid_mode : (value : String) → LoadError

pub data Loaded {ℓ} (A : Type ℓ) : Type ℓ where
  ok : A → Loaded A
  err : LoadError → Loaded A

infixl 10 ◌>>=◌ ◌>>◌
abbrev pub ◌>>=◌ {ℓ κ} : {A : Type ℓ} {B : Type κ} → Loaded A → (A → Loaded B) → Loaded B
ok a >>= f = f a
err e >>= f = err e

abbrev pub ◌>>◌ {ℓ κ} : {A : Type ℓ} {B : Type κ} → Loaded A → Loaded B → Loaded B
m >> n = m >>= λ _. n

-- `raw.get(key)`
unfoldable pub get : String → TomlFields → Option Toml
get key nil = none
get key (field k v fs) = if k == key then some v else get key fs

abbrev pub as_table : String → Option Toml → Loaded TomlFields
as_table key (some (table fs)) = ok fs
as_table key _ = err (missing_table key)

abbrev pub expect_table : TomlFields → String → Loaded TomlFields
expect_table raw key = as_table key (get key raw)

-- The texts of an array, if it holds nothing else.
unfoldable pub item_texts : TomlItems → Option (List String)
item_texts end = some []
item_texts (item (text t) rest) = elim (item_texts rest) [ none ↦ none | some ts ↦ some (t ∷ ts) ]
item_texts (item _ rest) = none

abbrev pub or_not_strings : String → Option (List String) → Loaded (List String)
or_not_strings key none = err (not_strings key)
or_not_strings key (some ts) = ok ts

abbrev pub as_strings : String → Option Toml → Loaded (List String)
as_strings key (some (array items)) = or_not_strings key (item_texts items)
as_strings key _ = err (not_strings key)

abbrev pub expect_list_of_strings : TomlFields → String → Loaded (List String)
expect_list_of_strings fs key = as_strings key (get key fs)

abbrev pub as_text : String → Option Toml → Loaded String
as_text key (some (text t)) = if truthy (strip t) then ok (strip t) else err (not_text key)
as_text key _ = err (not_text key)

abbrev pub expect_string : TomlFields → String → Loaded String
expect_string fs key = as_text key (get key fs)

-- `_parse_enum` at the three enumerations.
unfoldable pub parse_failure_kind : String → Loaded FailureKind
parse_failure_kind value =
    if value == "proof_body_failure"
    then ok proof_body_failure
    else if value == "statement_failure"
    then ok statement_failure
    else if value == "non_proof_command_failure"
    then ok non_proof_command_failure
    else if value == "theory_load_or_header_failure"
    then ok theory_load_or_header_failure
    else err (invalid_failure_kind value)

unfoldable pub parse_scope : String → Loaded PolicyDecisionScope
parse_scope value =
    if value == "action_permission"
    then ok action_permission
    else if value == "artifact_acceptance"
    then ok artifact_acceptance
    else if value == "continuation_gating"
    then ok continuation_gating
    else err (invalid_scope value)

unfoldable pub parse_mode : String → Loaded PlaceholderPolicyMode
parse_mode value =
    if value == "allow"
    then ok PlaceholderPolicyMode.allow
    else if value == "deny"
    then ok PlaceholderPolicyMode.deny
    else if value == "requires_review"
    then ok PlaceholderPolicyMode.requires_review
    else err (invalid_mode value)

-- `{kind, *kinds}`
abbrev pub add_kind : FailureKind → List FailureKind → List FailureKind
add_kind kind kinds = if contains kinds kind then kinds else kind ∷ kinds

-- The set comprehension over the listed values.
unfoldable pub parse_failure_kinds : List String → Loaded (List FailureKind)
parse_failure_kinds [] = ok []
parse_failure_kinds (value ∷ values) = do
  kind ← parse_failure_kind value
  kinds ← parse_failure_kinds values
  ok (add_kind kind kinds)

abbrev pub require_kinds : List String → Loaded (List String)
require_kinds [] = err no_failure_kinds
require_kinds (value ∷ values) = ok (value ∷ values)

unfoldable pub parse_rule_ids : TomlFields → Loaded PolicyRuleIds
parse_rule_ids fs = do
  risk ← expect_string fs "high_risk_failure_requires_review"
  placeholder_allow ← expect_string fs "placeholder_allow"
  placeholder_deny ← expect_string fs "placeholder_deny"
  placeholder_review ← expect_string fs "placeholder_requires_review"
  acceptance ← expect_string fs "fallback_acceptance_requires_review"
  continuation ← expect_string fs "fallback_continuation_requires_review"
  default_allow ← expect_string fs "default_allow"
  ok (record {
    high_risk_failure_requires_review = risk;
    placeholder_allow = placeholder_allow;
    placeholder_deny = placeholder_deny;
    placeholder_requires_review = placeholder_review;
    fallback_acceptance_requires_review = acceptance;
    fallback_continuation_requires_review = continuation;
    default_allow = default_allow;
  })

-- `_validate_rule_ids`
abbrev pub validate_rule_ids : PolicyRuleIds → Loaded (Unit {0})
validate_rule_ids ids = if distinct (rule_id_values ids) then ok tt else err repeated_rule_ids

unfoldable pub parse_policy_config : TomlFields → Loaded PolicyConfig
parse_policy_config raw = do
  policy ← expect_table raw "policy"
  placeholder ← expect_table raw "placeholder"
  rule_ids_table ← expect_table raw "rule_ids"
  listed ← expect_list_of_strings policy "high_risk_failure_kinds"
  values ← require_kinds listed
  kinds ← parse_failure_kinds values
  scope_text ← expect_string policy "default_scope"
  scope ← parse_scope scope_text
  mode_text ← expect_string placeholder "mode"
  mode ← parse_mode mode_text
  ids ← parse_rule_ids rule_ids_table
  validate_rule_ids ids
  ok (record {
    high_risk_failure_kinds = kinds;
    default_scope = scope;
    placeholder = record { mode = mode };
    rule_ids = ids;
  })
