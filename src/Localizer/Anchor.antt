-- ===== src/Localizer/Anchor.antt =====
-- The commands, the anchor and its rebuild after a drift.
use isabelle_repl.Base.{
  ℕ, zero, suc, ◌-◌, ℤ, max_ℤ, after, int_eq, String, Bool, true, false, not, ◌&&◌, ◌==◌, string_eq,
  option_eq, Option, none, some, List, get_elem?, Action, pure, throw, gets, modify, catch,
  foreign_error, ◌>>=◌, ◌>>◌, if◌then◌else◌,
}
use isabelle_repl.Hooks.{truthy_text}
use isabelle_repl.Snapshot.{Snapshot, set_anchor}
use isabelle_repl.Client.{
  StateResult, StateInfo, is_success, TheoryCommand, InitStateResult, success, error,
  list_theory_commands, init_after_header, execute, get_state_info,
}
use isabelle_repl.Localizer.Fields.{
  Settings, Localizer, no_digest, find_header_index, effective_text, on_server, anchored,
  set_digest,
}

module _ {W : Type 0} (settings : Settings W) where
  unfoldable pub load_commands : Option (List TheoryCommand) → Action (Localizer W) (Unit {0})
  load_commands (some commands) = pure tt
  load_commands none = do
    commands ←
        on_server
          (list_theory_commands settings.stub settings.session_id settings.theory_path false)
    modify (λ l. record l { commands = some commands; header_index = find_header_index 0 commands })

  -- `_ensure_commands_loaded`
  unfoldable pub ensure_commands_loaded : Action (Localizer W) (Unit {0})
  ensure_commands_loaded = do commands ← gets (λ l. l.commands); load_commands commands

  abbrev pub header_state : Action W InitStateResult
  header_state =
      init_after_header settings.stub settings.session_id settings.theory_path settings.timeout_ms
        true

  abbrev pub run_command : String → String → Action (Localizer W) StateResult
  run_command state_id text =
      on_server (execute settings.stub state_id text settings.timeout_ms true)

  unfoldable pub bootstrap_from : InitStateResult → Action (Localizer W) Bool
  bootstrap_from (error e) = do
    set_digest (
        some
          (record no_digest { reason = some "init_after_header_failed"; error = some e.error_msg }))
    pure false
  bootstrap_from (success r) = do
    header_index ← gets (λ l. l.header_index)
    anchored (set_anchor r.state_id header_index r.mode r.proof_level)
    set_digest none
    pure true

  -- `_bootstrap_anchor`
  unfoldable pub bootstrap_anchor : Action (Localizer W) Bool
  bootstrap_anchor = do result ← on_server header_state; bootstrap_from result

  abbrev level_differs : Option ℤ → ℤ → Bool
  level_differs none level = false
  level_differs (some expected) level = not (level == expected)

  abbrev drift_from : Snapshot → Option StateInfo → Option String
  drift_from s none = some "anchor_state_unavailable"
  drift_from s (some info) =
      if truthy_text s.mode && not (some info.mode == s.mode)
      then some "mode_mismatch"
      else if level_differs s.proof_level info.proof_level
      then some "proof_level_mismatch"
      else none

  -- `_detect_drift` for a snapshot that has an anchor.
  unfoldable pub detect_drift : String → Action (Localizer W) (Option String)
  detect_drift state_id = do
    info ←
        on_server
          (catch none (do reply ← get_state_info settings.stub state_id false; pure (some reply)))
    gets (λ l. drift_from l.snapshot info)

  abbrev index_error : {A : Type 0} → Action (Localizer W) A
  index_error = throw (foreign_error "list index out of range")

  -- The replay of one command from an anchor, and then the rest of the replay. None stands for the
  -- return of False.
  unfoldable pub replay_command :
      String
      → StateResult
      → (StateResult → Action (Localizer W) (Option StateResult))
      → Option TheoryCommand
      → Action (Localizer W) (Option StateResult)
  replay_command drift anchor rest none = index_error
  replay_command drift anchor rest (some c) = do
    s ← gets (λ l. l.snapshot)
    r ← run_command anchor.state_id (effective_text s c)
    if is_success r then rest r else (do
      set_digest (
          some (record no_digest {
            drift_fallback_reason = some drift;
            reason = some "rebuild_anchor_failed";
            command_line = some c.line;
            command_kind = some c.kind;
            error_msg = some r.error_msg;
          }))
      pure none)

  -- The replay of `count` commands from `index` on.
  unfoldable pub replay :
      String → List TheoryCommand → ℕ → ℕ → StateResult → Action (Localizer W) (Option StateResult)
  replay drift commands index zero anchor = pure (some anchor)
  replay drift commands index (suc count) anchor =
      replay_command drift anchor (λ r. replay drift commands (suc index) count r)
        (get_elem? commands index)

  unfoldable pub rebuilt : String → ℤ → Option StateResult → Action (Localizer W) Bool
  rebuilt drift replay_upto none = pure false
  rebuilt drift replay_upto (some anchor) = do
    anchored (set_anchor anchor.state_id replay_upto anchor.mode anchor.proof_level)
    set_digest (
        some (record no_digest {
          drift_fallback_reason = some drift;
          reason = some "rebuild_anchor_success";
          command_cursor = some replay_upto;
        }))
    pure true

  unfoldable pub rebuild_from :
      String → List TheoryCommand → InitStateResult → Action (Localizer W) Bool
  rebuild_from drift commands (error e) = pure false
  rebuild_from drift commands (success r) = do
    l ← gets (λ l. l)
    anchor ←
        replay drift commands (after l.header_index)
          (after (max_ℤ l.snapshot.command_cursor l.header_index) - after l.header_index) r
    rebuilt drift (max_ℤ l.snapshot.command_cursor l.header_index) anchor

  -- `_rebuild_anchor_from_header`
  unfoldable pub rebuild_anchor_from_header :
      String → List TheoryCommand → Action (Localizer W) Bool
  rebuild_anchor_from_header drift commands = do
    result ← on_server header_state
    rebuild_from drift commands result

  unfoldable pub after_drift :
      List TheoryCommand → String → Option String → Action (Localizer W) Bool
  after_drift commands state_id none = pure true
  after_drift commands state_id (some drift) = do
    s ← gets (λ l. l.snapshot)
    set_digest (
        some (record no_digest {
          drift_fallback_reason = some drift;
          anchor_state_id = some state_id;
          command_cursor = some s.command_cursor;
        }))
    rebuild_anchor_from_header drift commands

  unfoldable pub anchor_from : List TheoryCommand → Option String → Action (Localizer W) Bool
  anchor_from commands none = bootstrap_anchor
  anchor_from commands (some state_id) = do
    drift ← detect_drift state_id
    after_drift commands state_id drift

  -- `_ensure_anchor`
  unfoldable pub ensure_anchor : List TheoryCommand → Action (Localizer W) Bool
  ensure_anchor commands = do
    s ← gets (λ l. l.snapshot)
    anchor_from commands s.current_anchor_state_id
