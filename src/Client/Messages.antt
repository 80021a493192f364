-- ===== src/Client/Messages.antt =====
-- The results of client.py, the messages of the service that they are read from, and the names of the
-- numbers in them (src/main/protobuf/repl.proto).
use isabelle_repl.Base.{
  zero, suc, ℤ, pos, String, ◌<>◌, int_text, Bool, true, false, ◌||◌, ◌==◌, string_eq, Option, none,
  some, List, Action, pure, throw, runtime_error,
}

pub record StateResult : Type 0 where
  pub state_id : String
  pub status : String
  pub error_msg : String
  pub proof_level : ℤ
  pub mode : String
  pub proof_state_text : String

unfoldable pub is_success : StateResult → Bool
is_success r = r.status == "SUCCESS" || r.status == "PROOF_COMPLETE"

unfoldable pub is_timeout : StateResult → Bool
is_timeout r = r.status == "TIMEOUT"

unfoldable pub proof_is_finished : StateResult → Bool
proof_is_finished r = r.status == "PROOF_COMPLETE"

unfoldable pub logging_info : StateResult → String
logging_info r = "mode=" <> (r.mode <> (" level=" <> int_text r.proof_level))

pub record StateInfo : Type 0 where
  pub state_id : String
  pub mode : String
  pub proof_level : ℤ
  pub proof_state_text : String
  pub local_theory_desc : String

pub record TheoryCommand : Type 0 where
  pub text : String
  pub kind : String
  pub line : ℤ

pub record InitStateError : Type 0 where
  pub failed_line : ℤ
  pub error_msg : String
  pub last_success : Option StateResult
  pub code : String
  pub candidate_lines : List ℤ

-- `InitStateResult`: exactly one of its two fields is set.
pub data InitStateResult : Type 0 where
  success : StateResult → InitStateResult
  error : InitStateError → InitStateResult

-- `InitStateResult.is_success`
abbrev pub is_initialised : InitStateResult → Bool
is_initialised (success r) = true
is_initialised (error e) = false

unfoldable pub unwrap : {S : Type 0} → InitStateResult → Action S StateResult
unwrap (success r) = pure r
unwrap (error e) = throw (
    runtime_error
      ("init_state failed at line " <> (int_text e.failed_line <> (": " <> e.error_msg))))

-- `_EXEC_STATUS_NAMES.get(status, str(status))`
abbrev pub exec_status_name : ℤ → String
exec_status_name (pos zero) = "SUCCESS"
exec_status_name (pos (suc zero)) = "PROOF_COMPLETE"
exec_status_name (pos (suc (suc zero))) = "ERROR"
exec_status_name (pos (suc (suc (suc zero)))) = "TIMEOUT"
exec_status_name n = int_text n

-- `_STATE_MODE_NAMES.get(mode, str(mode))`
abbrev pub state_mode_name : ℤ → String
state_mode_name (pos zero) = "TOPLEVEL"
state_mode_name (pos (suc zero)) = "THEORY"
state_mode_name (pos (suc (suc zero))) = "LOCAL_THEORY"
state_mode_name (pos (suc (suc (suc zero)))) = "PROOF"
state_mode_name (pos (suc (suc (suc (suc zero))))) = "SKIPPED_PROOF"
state_mode_name n = int_text n

-- `_INIT_STATE_ERROR_CODE_NAMES.get(code, str(code))`
abbrev pub init_state_error_code_name : ℤ → String
init_state_error_code_name (pos zero) = "INIT_STATE_ERROR_UNKNOWN"
init_state_error_code_name (pos (suc zero)) = "INIT_STATE_NOT_FOUND"
init_state_error_code_name (pos (suc (suc zero))) = "INIT_STATE_AMBIGUOUS"
init_state_error_code_name (pos (suc (suc (suc zero)))) = "INIT_STATE_OCCURRENCE_OOR"
init_state_error_code_name (pos (suc (suc (suc (suc zero))))) = "INIT_STATE_EXECUTION_FAILED"
init_state_error_code_name (pos (suc (suc (suc (suc (suc zero)))))) = "INIT_STATE_TIMEOUT"
init_state_error_code_name n = int_text n

-- The messages `pb2.StateResult`, `pb2.StateInfo` and the two results of `InitState`.
pub record StateMessage : Type 0 where
  pub state_id : String
  pub status : ℤ
  pub error_msg : String
  pub proof_level : ℤ
  pub mode : ℤ
  pub proof_state_text : String

pub record StateInfoMessage : Type 0 where
  pub state_id : String
  pub mode : ℤ
  pub proof_level : ℤ
  pub proof_state_text : String
  pub local_theory_desc : String

pub record InitErrorMessage : Type 0 where
  pub failed_line : ℤ
  pub error_msg : String
  pub last_success : Option StateMessage
  pub code : ℤ
  pub candidate_lines : List ℤ

-- `WhichOneof("result")`: anything but "success" is read as an error.
pub data InitReply : Type 0 where
  success_reply : StateMessage → InitReply
  error_reply : InitErrorMessage → InitReply

-- `_parse_state_result`
unfoldable pub parse_state_result : StateMessage → StateResult
parse_state_result m = record {
  state_id = m.state_id;
  status = exec_status_name m.status;
  error_msg = m.error_msg;
  proof_level = m.proof_level;
  mode = state_mode_name m.mode;
  proof_state_text = m.proof_state_text;
}

abbrev pub parse_last : Option StateMessage → Option StateResult
parse_last none = none
parse_last (some m) = some (parse_state_result m)
