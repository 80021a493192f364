-- ===== src/Policy/Decisions.antt =====
-- What the gate decides, and what its rule ids say of a decision.
use isabelle_repl.Base.{
  ◌≡◌, ◌≢◌, ◌↔◌, String, Bool, true, false, ◌&&◌, ◌||◌, not, List, [], ◌∷◌, arith, contains,
  string_eq, ◌==◌, if◌then◌else◌,
}
use isabelle_repl.Model.{
  PolicyContext, PolicyDecisionKind, allow, deny, requires_review, failure_kind_eq,
}
use isabelle_repl.Policy.{
  PlaceholderPolicyMode, PolicyRuleIds, PolicyConfig, rule_id_values, decide, is_placeholder,
  is_repair,
}

-- The context asks for a placeholder, by its artifact or by its flag.
abbrev pub asks_placeholder : PolicyContext → Bool
asks_placeholder x = is_placeholder x.artifact_kind || x.is_placeholder_request

-- No text of the list occurs in it twice.
abbrev pub distinct : List String → Bool
distinct [] = true
distinct (t ∷ ts) = not (contains ts t) && distinct ts

-- The kind of decision that an auditor reads off the rule ids alone.
abbrev pub audited_kind : PolicyRuleIds → List String → PolicyDecisionKind
audited_kind ids [] = requires_review
audited_kind ids (t ∷ _) =
    if t == ids.default_allow || t == ids.placeholder_allow
    then allow
    else if t == ids.placeholder_deny
    then deny
    else requires_review

-- `t` is none of the texts.
abbrev Apart : String → List String → Type 0
Apart t [] = Unit
Apart t (u ∷ us) = (t ≢ u) × Apart t us

abbrev AllApart : List String → Type 0
AllApart [] = Unit
AllApart (t ∷ ts) = Apart t ts × AllApart ts

contains-Apart : (t : String) (ts : List String) → contains ts t ≡ false → Apart t ts
contains-Apart t [] h = tt
contains-Apart t (u ∷ us) h = (ground arith, contains-Apart t us (ground arith))

distinct-AllApart : (ts : List String) → distinct ts ≡ true → AllApart ts
distinct-AllApart [] h = tt
distinct-AllApart (t ∷ ts) h =
    (contains-Apart t ts (ground arith), distinct-AllApart ts (ground arith))

module _ (c : PolicyConfig) (x : PolicyContext) where
  -- The gate denies exactly the contexts that ask for a placeholder while the placeholder mode is
  -- `deny`.
  pub decide_denies :
      ((decide c x).kind ≡ deny)
      ↔ ((asks_placeholder x ≡ true) × (c.placeholder.mode ≡ PlaceholderPolicyMode.deny))
  unfolding decide
  decide_denies = (ground arith, ground arith)

  -- If the gate allows a context that does not ask for a placeholder, its failure kind is not of high
  -- risk, and its fallback depth is 0 where its artifact is a repair.
  pub decide_allows :
      (decide c x).kind ≡ allow
      → asks_placeholder x ≡ false
      → (contains c.high_risk_failure_kinds x.failure_kind ≡ false)
        × ((is_repair x.artifact_kind ≡ true) → x.fallback_depth ≡ 0)
  unfolding decide
  decide_allows h p = ground arith

  read_back :
      AllApart (rule_id_values c.rule_ids)
      → audited_kind c.rule_ids (decide c x).triggered_rule_ids ≡ (decide c x).kind
  unfolding decide
  read_back d = ground arith

  -- With distinct rule ids, the ids that a decision records determine its kind: reading them back
  -- gives the kind that was decided.
  pub audited_kind-decide :
      distinct (rule_id_values c.rule_ids) ≡ true
      → audited_kind c.rule_ids (decide c x).triggered_rule_ids ≡ (decide c x).kind
  audited_kind-decide h = read_back (distinct-AllApart (rule_id_values c.rule_ids) h)
