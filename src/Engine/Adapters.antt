-- ===== src/Engine/Adapters.antt =====
-- engine/adapters.py: the validation of an execution against the contract of its block.
use isabelle_repl.Base.{
  ℤ, pos, ltb_ℤ, int_eq, String, Bool, true, false, not, ◌&&◌, ◌||◌, ◌==◌, string_eq, Option, none,
  some, List, [], ◌∷◌, lookup,
}
use isabelle_repl.Model.{BlockContract, ValidationResult, passed, failed_contract, no_details}
use isabelle_repl.Contracts.{
  terminal_proof_step_block, whole_proof_body_block, theorem_shell_block, top_level_command_block,
}
use isabelle_repl.Client.{StateResult, is_success, proof_is_finished}

pub record ValidationContext : Type 0 where
  pub block_kind : String
  pub block_contract : BlockContract
  pub entry_mode : String
  pub entry_proof_level : ℤ
  pub execution_result : StateResult

-- The two results that every adapter has.
abbrev adapter_result : ValidationContext → Bool → String → ValidationResult
adapter_result c true reason = record {
  status = passed;
  reason = "";
  details = record no_details { contract = some c.block_contract };
}
adapter_result c false reason = record {
  status = failed_contract;
  reason = reason;
  details = record no_details { contract = some c.block_contract };
}

unfoldable pub terminal_proof_step_adapter : ValidationContext → ValidationResult
terminal_proof_step_adapter c =
    let r = c.execution_result in
    adapter_result c
      (proof_is_finished r || (is_success r && ltb_ℤ r.proof_level c.entry_proof_level))
      "goal_not_closed"

unfoldable pub whole_proof_body_adapter : ValidationContext → ValidationResult
whole_proof_body_adapter c =
    let r = c.execution_result in
    adapter_result c (is_success r && ltb_ℤ r.proof_level c.entry_proof_level) "subproof_not_closed"

unfoldable pub theorem_shell_adapter : ValidationContext → ValidationResult
theorem_shell_adapter c =
    let r = c.execution_result in
    adapter_result c (proof_is_finished r && r.proof_level == pos 0 && not (r.mode == "PROOF"))
      "theorem_not_closed"

unfoldable pub top_level_command_adapter : ValidationContext → ValidationResult
top_level_command_adapter c =
    let r = c.execution_result in
    adapter_result c (is_success r && not (r.mode == "PROOF") && r.proof_level == pos 0)
      "theory_context_not_restored"

abbrev pub ValidationAdapterRegistry : Type 0
ValidationAdapterRegistry = List (String × (ValidationContext → ValidationResult))

unfoldable pub default_registry : ValidationAdapterRegistry
default_registry =
    (terminal_proof_step_block, terminal_proof_step_adapter)
    ∷ (whole_proof_body_block, whole_proof_body_adapter)
    ∷ (theorem_shell_block, theorem_shell_adapter)
    ∷ (top_level_command_block, top_level_command_adapter)
    ∷ []

abbrev apply_adapter :
    Option (ValidationContext → ValidationResult) → ValidationContext → ValidationResult
apply_adapter none c = record {
  status = failed_contract;
  reason = "unsupported_block_kind";
  details = record no_details { block_kind = some c.block_kind };
}
apply_adapter (some adapter) c = adapter c

unfoldable pub registry_validate : ValidationAdapterRegistry → ValidationContext → ValidationResult
registry_validate adapters c = apply_adapter (lookup c.block_kind adapters) c
