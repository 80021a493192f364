-- ===== src/Engine/Contracts.antt =====
-- What the adapters of the default registry promise for the contract of a block.
use isabelle_repl.Base.{
  ℤ, pos, ltb_ℤ, int_eq, ◌≡◌, Bool, false, not, ◌&&◌, ◌||◌, ◌==◌, string_eq, Option, none, some,
  lookup, arith,
}
use isabelle_repl.Model.{
  BlockContract, goal_closed, subproof_closed, theorem_closed, context_updated,
}
use isabelle_repl.Contracts.{contract_for_block_kind}
use isabelle_repl.Client.{StateResult, is_success, proof_is_finished}
use isabelle_repl.Engine.Adapters.{
  ValidationContext, terminal_proof_step_adapter, whole_proof_body_adapter, theorem_shell_adapter,
  top_level_command_adapter, default_registry, registry_validate,
}
use isabelle_repl.Engine.Controller.{is_passed}

-- Whether an execution from a given proof level fulfils a contract.
unfoldable pub fulfils : BlockContract → ℤ → StateResult → Bool
fulfils goal_closed level r = proof_is_finished r || (is_success r && ltb_ℤ r.proof_level level)
fulfils subproof_closed level r = is_success r && ltb_ℤ r.proof_level level
fulfils theorem_closed level r =
    proof_is_finished r && (r.proof_level == pos 0 && not (r.mode == "PROOF"))
fulfils context_updated level r =
    is_success r && (r.proof_level == pos 0 && not (r.mode == "PROOF"))

abbrev pub fulfils_some : Option BlockContract → ℤ → StateResult → Bool
fulfils_some none level r = false
fulfils_some (some contract) level r = fulfils contract level r

-- The default registry passes an execution exactly if the block kind has a contract in contracts.py
-- and the execution fulfils it.
pub registry_validate-fulfils :
    (c : ValidationContext)
    → is_passed (registry_validate default_registry c).status
      ≡ fulfils_some (contract_for_block_kind c.block_kind) c.entry_proof_level c.execution_result
unfolding registry_validate default_registry lookup contract_for_block_kind fulfils
    terminal_proof_step_adapter whole_proof_body_adapter theorem_shell_adapter
    top_level_command_adapter
registry_validate-fulfils c = ground arith
