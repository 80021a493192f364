-- ===== src/Client/Calls.antt =====
-- The methods of `IsabelleReplClient`.
use isabelle_repl.Base.{
  ℕ, ℤ, String, ◌<>◌, Bool, false, ◌==◌, string_eq, Option, none, some, List, [], ◌∷◌, map, Action,
  Attempt, send, pure, throw, value_error, ◌>>=◌, if◌then◌else◌,
}
use isabelle_repl.Client.Messages.{
  StateResult, StateInfo, TheoryCommand, InitStateResult, success, error, state_mode_name,
  init_state_error_code_name, StateMessage, StateInfoMessage, InitReply, success_reply, error_reply,
  parse_state_result, parse_last,
}

-- Where a state is wanted: `after_line` and `after_command` of the request.
pub data Position : Type 0 where
  after_line : ℤ → Position
  after_command : String → Position
  at_end : Position

-- The server's methods, with the fields of their requests. `W` is the state of the server.
pub record Stub (W : Type 0) : Type 0 where
  pub create_session : String → String → String → List String → W → Attempt String × W
  pub destroy_session : String → W → Attempt (Unit {0}) × W
  pub load_theory : String → String → W → Attempt ℤ × W
  pub list_theory_commands : String → String → Bool → W → Attempt (List TheoryCommand) × W
  pub init_state : String → String → Position → ℕ → Bool → W → Attempt InitReply × W
  pub drop_state : List String → W → Attempt (Unit {0}) × W
  pub drop_all_states : String → W → Attempt (Unit {0}) × W
  pub execute : String → String → ℕ → Bool → W → Attempt StateMessage × W
  pub execute_batch : String → List String → ℕ → Bool → W → Attempt (List StateMessage) × W
  -- found, tactic and the result if there is one
  pub run_sledgehammer : String → ℕ → ℕ → W → Attempt (Bool × String × Option StateMessage) × W
  pub get_state_info : String → Bool → W → Attempt StateInfoMessage × W

abbrev or_empty : Option (List String) → List String
or_empty none = []
or_empty (some roots) = roots

-- The position that `init_state` asks for: a line goes before a command.
abbrev pub position : Option ℤ → Option String → Position
position (some line) command = after_line line
position none (some command) = after_command command
position none none = at_end

abbrev pub read_init_reply : InitReply → InitStateResult
read_init_reply (success_reply m) = success (parse_state_result m)
read_init_reply (error_reply m) = error (record {
  failed_line = m.failed_line;
  error_msg = m.error_msg;
  last_success = parse_last m.last_success;
  code = init_state_error_code_name m.code;
  candidate_lines = m.candidate_lines;
})

abbrev pub find_header : List TheoryCommand → Option TheoryCommand
find_header [] = none
find_header (c ∷ cs) = if c.kind == "theory" then some c else find_header cs

module _ {W : Type 0} (stub : Stub W) where
  unfoldable pub create_session : String → String → String → Option (List String) → Action W String
  create_session isa_path logic working_directory session_roots =
      send (stub.create_session isa_path logic working_directory (or_empty session_roots))

  unfoldable pub destroy_session : String → Action W (Unit {0})
  destroy_session session_id = send (stub.destroy_session session_id)

  unfoldable pub load_theory : String → String → Action W ℤ
  load_theory session_id theory_path = send (stub.load_theory session_id theory_path)

  unfoldable pub list_theory_commands : String → String → Bool → Action W (List TheoryCommand)
  list_theory_commands session_id theory_path only_proof_stmts =
      send (stub.list_theory_commands session_id theory_path only_proof_stmts)

  unfoldable pub init_state :
      String → String → Option ℤ → Option String → ℕ → Bool → Action W InitStateResult
  init_state session_id theory_path line command timeout_ms include_text = do
    reply ←
        send
          (stub.init_state session_id theory_path (position line command) timeout_ms include_text)
    pure (read_init_reply reply)

  abbrev init_after : String → String → ℕ → Bool → Option TheoryCommand → Action W InitStateResult
  init_after session_id theory_path timeout_ms include_text none = throw (
      value_error
        ("No 'theory' command found in " <> (theory_path <> "; is the theory file valid?")))
  init_after session_id theory_path timeout_ms include_text (some header) =
      init_state session_id theory_path (some header.line) none timeout_ms include_text

  unfoldable pub init_after_header : String → String → ℕ → Bool → Action W InitStateResult
  init_after_header session_id theory_path timeout_ms include_text = do
    commands ← list_theory_commands session_id theory_path false
    init_after session_id theory_path timeout_ms include_text (find_header commands)

  unfoldable pub drop_state : List String → Action W (Unit {0})
  drop_state state_ids = send (stub.drop_state state_ids)

  unfoldable pub drop_all_states : String → Action W (Unit {0})
  drop_all_states session_id = send (stub.drop_all_states session_id)

  unfoldable pub execute : String → String → ℕ → Bool → Action W StateResult
  execute source_state_id tactic timeout_ms include_text = do
    reply ← send (stub.execute source_state_id tactic timeout_ms include_text)
    pure (parse_state_result reply)

  unfoldable pub execute_many : String → List String → ℕ → Bool → Action W (List StateResult)
  execute_many source_state_id tactics timeout_ms drop_failed = do
    replies ← send (stub.execute_batch source_state_id tactics timeout_ms drop_failed)
    pure (map parse_state_result replies)

  unfoldable pub run_sledgehammer : String → ℕ → ℕ → Action W (Bool × String × Option StateResult)
  run_sledgehammer source_state_id timeout_ms sledgehammer_timeout_ms = do
    reply ← send (stub.run_sledgehammer source_state_id timeout_ms sledgehammer_timeout_ms)
    let (found, tactic, result) = reply
    pure (found, tactic, parse_last result)

  unfoldable pub get_state_info : String → Bool → Action W StateInfo
  get_state_info state_id include_text = do
    reply ← send (stub.get_state_info state_id include_text)
    pure (record {
      state_id = reply.state_id;
      mode = state_mode_name reply.mode;
      proof_level = reply.proof_level;
      proof_state_text = reply.proof_state_text;
      local_theory_desc = reply.local_theory_desc;
    })
