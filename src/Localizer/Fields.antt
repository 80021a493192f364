-- ===== src/Localizer/Fields.antt =====
-- The fields of the localizer, and what it computes without the server. The commands, the index of the
-- header and the number of tasks are its own fields; the snapshot is the run's.
use isabelle_repl.Base.{
  ℕ, suc, ℤ, pos, negsuc, int_eq, String, or_text, Bool, ◌&&◌, ◌==◌, string_eq, option_eq, contains,
  Option, none, some, List, [], ◌∷◌, Action, modify, if◌then◌else◌,
}
use isabelle_repl.Model.{
  FailureKind, proof_body_failure, statement_failure, non_proof_command_failure, FailureDigest,
  goal_closed, subproof_closed, theorem_closed, RepairBlockCandidate,
}
use isabelle_repl.Contracts.{terminal_proof_step_block, whole_proof_body_block, theorem_shell_block}
use isabelle_repl.Snapshot.{Snapshot, set_last_failure_digest, replacement_for_line}
use isabelle_repl.Client.{TheoryCommand, Stub}

-- The fields that stay.
pub record Settings (W : Type 0) : Type 0 where
  pub stub : Stub W
  pub session_id : String
  pub theory_path : String
  pub default_candidate_tactic : String
  pub allow_sledgehammer : Bool
  pub timeout_ms : ℕ

-- The fields that change, the run's snapshot and the server.
pub record Localizer (W : Type 0) : Type 0 where
  pub commands : Option (List TheoryCommand)
  pub header_index : ℤ
  pub next_task_number : ℕ
  pub snapshot : Snapshot
  pub server : W

abbrev pub no_digest : FailureDigest
no_digest = record {
  reason = none;
  command_line = none;
  command_kind = none;
  error_msg = none;
  error = none;
  entry_mode = none;
  entry_proof_level = none;
  drift_fallback_reason = none;
  anchor_state_id = none;
  command_cursor = none;
}

-- `_default_fallback_candidates`
unfoldable pub default_fallback_candidates : List RepairBlockCandidate
default_fallback_candidates =
    (record {
      block_kind = terminal_proof_step_block;
      block_contract = goal_closed;
      origin = "primary";
      localization_confidence = none;
    })
    ∷ (record {
      block_kind = whole_proof_body_block;
      block_contract = subproof_closed;
      origin = "fallback";
      localization_confidence = none;
    })
    ∷ (record {
      block_kind = theorem_shell_block;
      block_contract = theorem_closed;
      origin = "fallback";
      localization_confidence = none;
    })
    ∷ []

abbrev proof_kinds : List String
proof_kinds = "by" ∷ "proof" ∷ "qed" ∷ []

abbrev statement_kinds : List String
statement_kinds = "lemma" ∷ "theorem" ∷ "have" ∷ "show" ∷ "hence" ∷ "thus" ∷ []

-- `_classify_failure`
unfoldable pub classify_failure : String → String → FailureKind
classify_failure command_kind entry_mode =
    if entry_mode == "PROOF" && contains proof_kinds command_kind
    then proof_body_failure
    else if entry_mode == "PROOF"
    then statement_failure
    else if contains statement_kinds command_kind
    then statement_failure
    else non_proof_command_failure

-- The position of the first command of kind "theory", or -1.
unfoldable pub find_header_index : ℕ → List TheoryCommand → ℤ
find_header_index index [] = negsuc 0
find_header_index index (c ∷ cs) =
    if c.kind == "theory" then pos index else find_header_index (suc index) cs

abbrev or_command : Option String → String → String
or_command none text = text
or_command (some t) text = or_text t text

-- The replacement of a command's line, or its own text.
abbrev pub effective_text : Snapshot → TheoryCommand → String
effective_text s c = or_command (replacement_for_line s c.line) c.text

abbrev pub drift_of : Option FailureDigest → Option String
drift_of none = none
drift_of (some d) = d.drift_fallback_reason

module _ {W : Type 0} where
  abbrev pub on_server : {A : Type 0} → Action W A → Action (Localizer W) A
  on_server m l = let (r, w) = m l.server in (r, record l { server = w })

  abbrev pub anchored : {A : Type 0} → Action Snapshot A → Action (Localizer W) A
  anchored m l = let (r, s) = m l.snapshot in (r, record l { snapshot = s })

  abbrev pub set_digest : Option FailureDigest → Action (Localizer W) (Unit {0})
  set_digest digest =
      modify (λ l. record l { snapshot = set_last_failure_digest digest l.snapshot })
