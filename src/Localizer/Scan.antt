-- ===== src/Localizer/Scan.antt =====
-- `next_task`: the loop over the commands behind the anchor, and the task of the one that fails.
use isabelle_repl.Base.{
  ℕ, suc, pos, max_ℤ, after, int_eq, String, ◌<>◌, decimal, string_eq, option_eq, Option, none,
  some, or_default, List, [], ◌∷◌, map, drop, Action, pure, gets, modify, ◌>>=◌, ◌>>◌,
  if◌then◌else◌,
}
use isabelle_repl.Model.{LocalizedTask, readable}
use isabelle_repl.Contracts.{terminal_proof_step_block}
use isabelle_repl.Snapshot.{Snapshot, set_anchor}
use isabelle_repl.Client.{StateResult, is_success, TheoryCommand}
use isabelle_repl.Localizer.Fields.{
  Settings, Localizer, no_digest, default_fallback_candidates, classify_failure, effective_text,
  drift_of, anchored, set_digest,
}
use isabelle_repl.Localizer.Anchor.{ensure_commands_loaded, run_command, ensure_anchor}

module _ {W : Type 0} (settings : Settings W) where
  -- The task of a command that failed from the state `state_id`.
  unfoldable pub failed_task : ℕ → Snapshot → String → TheoryCommand → StateResult → LocalizedTask
  failed_task number s state_id c r = record {
    task_id = "task-" <> decimal number;
    block_kind = terminal_proof_step_block;
    failure_kind = classify_failure c.kind (or_default s.mode "");
    block_text = effective_text s c;
    entry_checkpoint = record {
      mode = some (or_default s.mode "");
      proof_level = some (or_default s.proof_level (pos 0));
    };
    metadata = record {
      source_state_id = some state_id;
      candidate_tactic = some settings.default_candidate_tactic;
      allow_sledgehammer = some settings.allow_sledgehammer;
      line = some (readable c.line);
      command_line = none;
      command_kind = some c.kind;
      error_msg = some r.error_msg;
      fallback_chain = some (map (λ k. k.block_kind) default_fallback_candidates);
      fallback_origin = some "terminal";
      active_block_kind = none;
      drift_fallback_reason = drift_of s.last_failure_digest;
      localization_confidence = none;
    };
    fallback_candidates = default_fallback_candidates;
  }

  -- The end of `next_task` at a command that failed.
  unfoldable pub localize_failure :
      String → TheoryCommand → StateResult → Action (Localizer W) (Option LocalizedTask)
  localize_failure state_id c r = do
    modify (λ l. record l { next_task_number = suc l.next_task_number })
    l ← gets (λ l. l)
    set_digest (
        some (record no_digest {
          reason = some "command_execution_failure";
          command_line = some c.line;
          command_kind = some c.kind;
          error_msg = some r.error_msg;
          entry_mode = l.snapshot.mode;
          entry_proof_level = l.snapshot.proof_level;
          drift_fallback_reason = drift_of l.snapshot.last_failure_digest;
        }))
    pure (some (failed_task l.next_task_number l.snapshot state_id c r))

  -- One command of the loop in `next_task`, and then the rest of the loop.
  unfoldable pub scan_command :
      ℕ
      → TheoryCommand
      → Action (Localizer W) (Option LocalizedTask)
      → Option String
      → Action (Localizer W) (Option LocalizedTask)
  scan_command index c rest none = do
    set_digest (
        some
          (record no_digest { reason = some "missing_anchor_state"; command_line = some c.line }))
    pure none
  scan_command index c rest (some state_id) = do
    s ← gets (λ l. l.snapshot)
    r ← run_command settings state_id (effective_text s c)
    if is_success r
        then (do anchored (set_anchor r.state_id (pos index) r.mode r.proof_level); rest)
        else localize_failure state_id c r

  unfoldable pub scan : ℕ → List TheoryCommand → Action (Localizer W) (Option LocalizedTask)
  scan index [] = pure none
  scan index (c ∷ cs) = do
    state_id ← gets (λ l. l.snapshot.current_anchor_state_id)
    scan_command index c (scan (suc index) cs) state_id

  -- `max(command_cursor + 1, header_index + 1)`
  abbrev pub start_index : Localizer W → ℕ
  start_index l = after (max_ℤ l.snapshot.command_cursor l.header_index)

  unfoldable pub task_among : List TheoryCommand → Action (Localizer W) (Option LocalizedTask)
  task_among [] = pure none
  task_among (c ∷ cs) = do
    ok ← ensure_anchor settings (c ∷ cs)
    start ← gets start_index
    if ok then scan start (drop start (c ∷ cs)) else pure none

  -- `next_task`
  unfoldable pub next_task : Action (Localizer W) (Option LocalizedTask)
  next_task = do
    ensure_commands_loaded settings
    commands ← gets (λ l. or_default l.commands [])
    task_among commands
