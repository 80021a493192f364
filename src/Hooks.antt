-- ===== src/Hooks.antt =====
-- python/src/isabelle_repair/hooks/guard.py and static.py.
use isabelle_repl.Base.{
  ◌≡◌, ◌≢◌, ◌⊎◌, inl, inr, String, ◌<>◌, Bool, true, false, not, ◌&&◌, Option, none, some, List,
  map, arith, contains, truthy, join, if◌then◌else◌, Bool-cases,
}
use isabelle_repl.Model.{
  InterventionContext, InterventionResponse, InterventionResponseKind, reject_current_artifact,
  provide_replacement_artifact, request_committed_placeholder, response_kind_value,
  response_kind_eq,
}

pub record HookValidationResult : Type 0 where
  pub response : InterventionResponse
  pub invalid_response_reason : Option String

-- The truth of `response.replacement_artifact_text`.
abbrev pub truthy_text : Option String → Bool
truthy_text none = false
truthy_text (some t) = truthy t

abbrev is_replacement : InterventionResponseKind → Bool
is_replacement provide_replacement_artifact = true
is_replacement _ = false

-- `_invalid`
invalid : InterventionResponse → String → HookValidationResult
invalid response reason = record {
  response = record {
    kind = reject_current_artifact;
    replacement_artifact_text = none;
    invalid_response_reason = some reason;
    original_response_kind = some response.kind;
  };
  invalid_response_reason = some reason;
}

-- The message lists the allowed kinds in the order in which Python walks a set, which is not fixed:
-- `iterate` stands for that order.
not_allowed :
    (List InterventionResponseKind → List InterventionResponseKind)
    → InterventionContext
    → InterventionResponseKind
    → String
not_allowed iterate context kind =
    "response_not_allowed:"
    <> (response_kind_value kind
        <> (";allowed="
            <> join "," (map response_kind_value (iterate context.allowed_response_kinds))))

pub validate_intervention_response :
    (List InterventionResponseKind → List InterventionResponseKind)
    → InterventionContext
    → InterventionResponse
    → HookValidationResult
unfolding invalid not_allowed
validate_intervention_response iterate context response =
    if not (contains context.allowed_response_kinds response.kind)
    then invalid response (not_allowed iterate context response.kind)
    else if is_replacement response.kind && not (truthy_text response.replacement_artifact_text)
    then invalid response "replacement_artifact_text_missing"
    else (record { response = response; invalid_response_reason = none })

-- `StaticReviewHook`: a fixed response, or a callback.
pub data StaticReviewHook : Type 0 where
  fixed : InterventionResponse → StaticReviewHook
  callback : (InterventionContext → InterventionResponse) → StaticReviewHook

unfoldable pub handle : StaticReviewHook → InterventionContext → InterventionResponse
handle (fixed response) context = response
handle (callback factory) context = factory context

module _ (iterate : List InterventionResponseKind → List InterventionResponseKind)
    (context : InterventionContext) (response : InterventionResponse) where
  abbrev pub guarded : HookValidationResult
  guarded = validate_intervention_response iterate context response

  -- Either the response passes unchanged, of an allowed kind and with a text that is not empty if it
  -- provides a replacement, or it becomes a rejection whose reason is kept in it and beside it, with
  -- the kind that the hook gave.
  pub validate_intervention_response_cases :
      ((guarded.response ≡ response)
        × (guarded.invalid_response_reason ≡ none)
        × (contains context.allowed_response_kinds response.kind ≡ true)
        × (response.kind ≡ provide_replacement_artifact
            → truthy_text response.replacement_artifact_text ≡ true))
      ⊎ ((guarded.response.kind ≡ reject_current_artifact)
          × (guarded.response.invalid_response_reason ≡ guarded.invalid_response_reason)
          × (guarded.response.original_response_kind ≡ some response.kind)
          × ((reason : String) × (guarded.invalid_response_reason ≡ some reason)))
  unfolding validate_intervention_response
  validate_intervention_response_cases =
      elim (Bool-cases (contains context.allowed_response_kinds response.kind)) [
        | inl p ↦
            elim (Bool-cases (
              is_replacement response.kind
              && not (truthy_text response.replacement_artifact_text))) [
                | inl q ↦ inr (
                  ground arith,
                  ground arith,
                  ground arith,
                  ("replacement_artifact_text_missing", ground arith),
                )
                | inr q ↦ inl (ground arith, ground arith, p, ground arith)
              ]
        | inr p ↦ inr (
          ground arith,
          ground arith,
          ground arith,
          (not_allowed iterate context response.kind, ground arith),
        )
      ]

  -- A placeholder is asked for only where the context allows it.
  pub guarded-ne-placeholder :
      contains context.allowed_response_kinds request_committed_placeholder ≡ false
      → guarded.response.kind ≢ request_committed_placeholder
  unfolding validate_intervention_response
  guarded-ne-placeholder h = ground arith
