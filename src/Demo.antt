-- ===== src/Demo.antt =====
-- python/examples/proof_repair_demo.py: `execute_and_repair`, which repairs the commands of a theory
-- one after another.
pub mod Main
pub mod Soundness
pub mod Laws
use isabelle_repl.Base.{
  ℕ, zero, suc, ℤ, int_eq, String, truthy, ◌<>◌, Bool, true, false, ◌&&◌, ◌==◌, string_eq, Option,
  none, some, List, [], ◌∷◌, ◌++◌, map, Action, Attempt, returned, send, pure, throw, foreign_error,
  ◌>>=◌, ◌>>◌, if◌then◌else◌,
}
use isabelle_repl.Client.{
  StateResult, is_success, is_timeout, TheoryCommand, InitStateError, InitStateResult, success,
  error, Stub, create_session, destroy_session, list_theory_commands, init_after_header, execute,
  run_sledgehammer,
}

-- What the repair hook is called with, and the hook, which answers with a text.
pub record HookCall : Type 0 where
  pub theory_file : String
  pub cmd_text : String
  pub cmd_kind : String
  pub line : ℤ
  pub error_msg : String
  pub proof_level : ℤ
  pub mode : String
  pub proof_state_text : String

abbrev pub RepairHook : Type 0 → Type 0
RepairHook W = HookCall → W → Attempt String × W

-- The lines that the function prints once the theory is loaded.
pub data Printed : Type 0 where
  sledgehammer_found : (line : ℤ) (tactic : String) → Printed
  repair_successful : (line : ℤ) (trial : ℕ) (original attempt : String) → Printed
  repair_failed : (line : ℤ) (trial : ℕ) (original : String) → Printed
  error_outside_proof : (line : ℤ) → Printed

-- The function's locals; `fixes` and `state_cache` are dicts in insertion order.
pub record Repairs : Type 0 where
  pub state : StateResult
  pub fixes : List ((ℤ × String) × String)
  pub state_cache : List (ℤ × StateResult)
  pub printed : List Printed

-- `fixes[(line, text)] = tactic`
abbrev pub put_fix :
    ℤ → String → String → List ((ℤ × String) × String) → List ((ℤ × String) × String)
put_fix line text tactic [] = ((line, text), tactic) ∷ []
put_fix line text tactic (((l, t), u) ∷ fixes) =
    if (l == line) && (t == text)
    then ((line, text), tactic) ∷ fixes
    else ((l, t), u) ∷ put_fix line text tactic fixes

-- `state_cache[line] = state`
abbrev pub put_state : ℤ → StateResult → List (ℤ × StateResult) → List (ℤ × StateResult)
put_state line st [] = (line, st) ∷ []
put_state line st ((l, s) ∷ cache) =
    if l == line then (line, st) ∷ cache else (l, s) ∷ put_state line st cache

-- A command that runs as it is, and one that a tactic repairs.
abbrev pub advanced : TheoryCommand → StateResult → Repairs → Repairs
advanced cmd next_state r = record r {
  state = next_state;
  state_cache = put_state cmd.line next_state r.state_cache;
}

abbrev pub repaired : TheoryCommand → String → StateResult → Printed → Repairs → Repairs
repaired cmd tactic repair_state line r = record r {
  state = repair_state;
  fixes = put_fix cmd.line cmd.text tactic r.fixes;
  state_cache = put_state cmd.line repair_state r.state_cache;
  printed = r.printed ++ line ∷ [];
}

-- The commands behind the first one of kind "theory", with that one.
abbrev pub after_header : List TheoryCommand → Option (TheoryCommand × List TheoryCommand)
after_header [] = none
after_header (c ∷ cs) = if c.kind == "theory" then some (c, cs) else after_header cs

abbrev pub error_text : StateResult → String
error_text next_state = if is_timeout next_state then "Timeout" else next_state.error_msg

-- Whether the loop over the commands goes on, with the locals.
abbrev pub Round : Type 0
Round = Bool × Repairs

module _ {W : Type 0} (stub : Stub W) (repair_hook : RepairHook W) (theory_file : String)
    (timeout_ms : ℕ) where
  -- The `while` loop with `left` attempts left after `trial`: the attempts made, and the one that
  -- succeeds, if one does.
  unfoldable pub try_repairs :
      ℕ
      → ℕ
      → TheoryCommand
      → StateResult
      → StateResult
      → Action W (ℕ × Option (String × StateResult))
  try_repairs zero trial cmd next_state state = pure (trial, none)
  try_repairs (suc left) trial cmd next_state state = do
    repair_attempt ← send (
        repair_hook (record {
          theory_file = theory_file;
          cmd_text = cmd.text;
          cmd_kind = cmd.kind;
          line = cmd.line;
          error_msg = error_text next_state;
          proof_level = state.proof_level;
          mode = state.mode;
          proof_state_text = state.proof_state_text;
        }))
    repair_state ← execute stub state.state_id repair_attempt timeout_ms true
    if is_success repair_state
        then pure (suc trial, some (repair_attempt, repair_state))
        else try_repairs left (suc trial) cmd next_state state

  -- The branches behind the loop: `break` with a repair, or its `else`.
  abbrev pub after_repairs : TheoryCommand → Repairs → ℕ × Option (String × StateResult) → Round
  after_repairs cmd r (trial, some (attempt, repair_state)) = (
    true,
    repaired cmd attempt repair_state (repair_successful cmd.line trial cmd.text attempt) r,
  )
  after_repairs cmd r (trial, none) =
      if r.state.mode == "PROOF"
      then (true, record r { printed = r.printed ++ repair_failed cmd.line trial cmd.text ∷ [] })
      else (
        false,
        record r {
          printed =
              r.printed
              ++ repair_failed cmd.line trial cmd.text ∷ error_outside_proof cmd.line ∷ [];
        },
      )

  unfoldable pub repair_by_hook : ℕ → TheoryCommand → StateResult → Repairs → Action W Round
  repair_by_hook retry_limit cmd next_state r = do
    repair ← try_repairs retry_limit 0 cmd next_state r.state
    pure (after_repairs cmd r repair)

  -- The result of a call of Sledgehammer: `found and tactic and repair_state.is_success()`.
  abbrev pub accepted_tactic :
      Bool × String × Option StateResult → Action W (Option (String × StateResult))
  accepted_tactic (found, tactic, none) =
      if found && truthy tactic then throw (foreign_error "AttributeError") else pure none
  accepted_tactic (found, tactic, some repair_state) = pure (
      if found && truthy tactic && is_success repair_state
      then some (tactic, repair_state)
      else none)

  unfoldable pub ask_for_tactic : Bool → StateResult → Action W (Option (String × StateResult))
  ask_for_tactic try_sledgehammer state =
      if try_sledgehammer && (state.mode == "PROOF")
      then (do
        reply ← run_sledgehammer stub state.state_id timeout_ms timeout_ms
        accepted_tactic reply)
      else pure none

  abbrev pub or_hook :
      ℕ → TheoryCommand → StateResult → Repairs → Option (String × StateResult) → Action W Round
  or_hook retry_limit cmd next_state r (some (tactic, repair_state)) =
      pure (true, repaired cmd tactic repair_state (sledgehammer_found cmd.line tactic) r)
  or_hook retry_limit cmd next_state r none = repair_by_hook retry_limit cmd next_state r

  -- One round of the loop over the commands.
  unfoldable pub process_command : ℕ → Bool → TheoryCommand → Repairs → Action W Round
  process_command retry_limit try_sledgehammer cmd r = do
    next_state ← execute stub r.state.state_id cmd.text timeout_ms true
    if is_success next_state then pure (true, advanced cmd next_state r) else (do
      tactic ← ask_for_tactic try_sledgehammer r.state
      or_hook retry_limit cmd next_state r tactic)

  abbrev pub go_on : (Repairs → Action W Repairs) → Round → Action W Repairs
  go_on rest (true, r) = rest r
  go_on rest (false, r) = pure r

  unfoldable pub process_commands : ℕ → Bool → List TheoryCommand → Repairs → Action W Repairs
  process_commands retry_limit try_sledgehammer [] r = pure r
  process_commands retry_limit try_sledgehammer (cmd ∷ cmds) r = do
    done ← process_command retry_limit try_sledgehammer cmd r
    go_on (process_commands retry_limit try_sledgehammer cmds) done

  abbrev pub from_header :
      ℕ → Bool → StateResult → Option (TheoryCommand × List TheoryCommand) → Action W Repairs
  from_header retry_limit try_sledgehammer state none = throw (foreign_error "StopIteration")
  from_header retry_limit try_sledgehammer state (some (header, cmds)) =
      process_commands retry_limit try_sledgehammer cmds (record {
        state = state;
        fixes = [];
        state_cache = (header.line, state) ∷ [];
        printed = [];
      })

  -- The locals at the end, or nothing where the theory does not load.
  abbrev pub if_initialised :
      ℕ → Bool → List TheoryCommand → InitStateResult → Action W (Option Repairs)
  if_initialised retry_limit try_sledgehammer commands (error e) = pure none
  if_initialised retry_limit try_sledgehammer commands (success state) = do
    r ← from_header retry_limit try_sledgehammer state (after_header commands)
    pure (some r)

  unfoldable pub execute_and_repair : String → ℕ → Bool → Action W (Option Repairs)
  execute_and_repair session_id retry_limit try_sledgehammer = do
    commands ← list_theory_commands stub session_id theory_file false
    init_state ← init_after_header stub session_id theory_file 60000 true
    if_initialised retry_limit try_sledgehammer commands init_state
