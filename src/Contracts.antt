-- ===== src/Contracts.antt =====
-- python/src/isabelle_repair/localization/contracts.py
use isabelle_repl.Base.{String, Option, none, some, ◌==◌, string_eq, if◌then◌else◌}
use isabelle_repl.Model.{
  BlockContract, goal_closed, subproof_closed, theorem_closed, context_updated,
}

abbrev pub terminal_proof_step_block : String
terminal_proof_step_block = "TerminalProofStepBlock"

abbrev pub whole_proof_body_block : String
whole_proof_body_block = "WholeProofBodyBlock"

abbrev pub theorem_shell_block : String
theorem_shell_block = "TheoremShellBlock"

abbrev pub top_level_command_block : String
top_level_command_block = "TopLevelCommandBlock"

unfoldable pub contract_for_block_kind : String → Option BlockContract
contract_for_block_kind block_kind =
    if block_kind == terminal_proof_step_block
    then some goal_closed
    else if block_kind == whole_proof_body_block
    then some subproof_closed
    else if block_kind == theorem_shell_block
    then some theorem_closed
    else if block_kind == top_level_command_block
    then some context_updated
    else none
