-- ===== src/Localizer/Laws.antt =====
-- What `next_task` leaves alone in the snapshot, and how it moves the cursor.
use isabelle_repl.Base.{
  ℕ, zero, suc, ◌≡◌, refl, ltb_ℤ, ℤ, pos, negsuc, String, true, false, Option, none, some, List, [],
  ◌∷◌, get_elem?, Action, throw, modify, Keeps, Keeps-pure, Keeps-gets, Keeps-if, Keeps-bind,
  Keeps-modify, keeps_rules, Bool-cases, inl, inr, arith,
}
use isabelle_repl.Model.{FailureDigest, LocalizedTask}
use isabelle_repl.Snapshot.{set_anchor, set_last_failure_digest}
use isabelle_repl.Client.{StateResult, TheoryCommand, InitStateResult, success, error, is_success}
use isabelle_repl.Localizer.{
  Settings, Localizer, on_server, anchored, set_digest, load_commands, ensure_commands_loaded,
  bootstrap_from, bootstrap_anchor, detect_drift, replay_command, replay, rebuilt, rebuild_from,
  rebuild_anchor_from_header, after_drift, anchor_from, ensure_anchor, localize_failure,
  scan_command, scan, task_among, next_task,
}

-- What the steps of the localizer keep.
record IsSteady {W : Type 0} (P : Localizer W → Type 0) : Type 0 where
  server : (l : Localizer W) (w : W) → P l → P (record l { server = w })
  commands :
      (l : Localizer W) (cs : Option (List TheoryCommand)) (header : ℤ)
      → P l
      → P (record l { commands = cs; header_index = header })
  number : (l : Localizer W) (n : ℕ) → P l → P (record l { next_task_number = n })
  digest :
      (l : Localizer W) (d : Option FailureDigest)
      → P l
      → P (record l { snapshot = set_last_failure_digest d l.snapshot })
  anchor :
      (l : Localizer W) (state_id : String) (cursor : ℤ) (mode : String) (level : ℤ)
      → ltb_ℤ cursor l.snapshot.command_cursor ≡ false
      → P l
      → P (record l {
        snapshot = record (l.snapshot) {
          current_anchor_state_id = some state_id;
          command_cursor = cursor;
          mode = some mode;
          proof_level = some level;
        };
      })

module _ {W : Type 0} {P : Localizer W → Type 0} (steady : IsSteady P) where
  on_server-Keeps : {A : Type 0} (m : Action W A) → Keeps P (on_server m)
  on_server-Keeps m = record { at = λ l h. steady.server l _ h }

  set_digest-Keeps : (d : Option FailureDigest) → Keeps P (set_digest d)
  set_digest-Keeps d = Keeps-modify _ (λ l h. steady.digest l d h)

  set_anchor-Keeps :
      (state_id : String) (cursor : ℤ) (mode : String) (level : ℤ)
      → Keeps P (anchored (set_anchor state_id cursor mode level))
  unfolding set_anchor throw modify
  set_anchor-Keeps state_id cursor mode level = record {
    at = λ l h. elim (Bool-cases (ltb_ℤ cursor l.snapshot.command_cursor)) [
      | inl e ↦ rw e h
      | inr e ↦ rw e (steady.anchor l state_id cursor mode level e h)
    ];
  }

  module _ (settings : Settings W) where
    load_commands-Keeps : (cs : Option (List TheoryCommand)) → Keeps P (load_commands settings cs)
    unfolding load_commands
    load_commands-Keeps (some cs) = Keeps-pure tt
    load_commands-Keeps none =
        Keeps-bind _ _ (on_server-Keeps _) (λ cs. Keeps-modify _ (λ l h. steady.commands l _ _ h))

    ensure_commands_loaded-Keeps : Keeps P (ensure_commands_loaded settings)
    unfolding ensure_commands_loaded
    ensure_commands_loaded-Keeps = search (keeps_rules, load_commands-Keeps)

    bootstrap_from-Keeps : (r : InitStateResult) → Keeps P (bootstrap_from settings r)
    unfolding bootstrap_from
    bootstrap_from-Keeps (error e) = search (keeps_rules, set_digest-Keeps)
    bootstrap_from-Keeps (success r) =
        search (keeps_rules, set_digest-Keeps, set_anchor-Keeps) depth 9

    bootstrap_anchor-Keeps : Keeps P (bootstrap_anchor settings)
    unfolding bootstrap_anchor
    bootstrap_anchor-Keeps = Keeps-bind _ _ (on_server-Keeps _) bootstrap_from-Keeps

    detect_drift-Keeps : (state_id : String) → Keeps P (detect_drift settings state_id)
    unfolding detect_drift
    detect_drift-Keeps state_id = Keeps-bind _ _ (on_server-Keeps _) (λ info. Keeps-gets _)

    replay_command-Keeps :
        (drift : String) (anchor : StateResult)
        (rest : StateResult → Action (Localizer W) (Option StateResult)) (c : Option TheoryCommand)
        → ((r : StateResult) → Keeps P (rest r))
        → Keeps P (replay_command settings drift anchor rest c)
    unfolding replay_command throw
    replay_command-Keeps drift anchor rest none h = record { at = λ l p. p }
    replay_command-Keeps drift anchor rest (some c) h = Keeps-bind _ _ (Keeps-gets _) λ s.
        Keeps-bind _ _ (on_server-Keeps _) λ r.
          Keeps-if (is_success r) _ _ (λ _. h r)
            (λ _. Keeps-bind _ _ (set_digest-Keeps _) (λ _. Keeps-pure none))

    replay-Keeps :
        (drift : String) (cs : List TheoryCommand) (index count : ℕ) (anchor : StateResult)
        → Keeps P (replay settings drift cs index count anchor)
    unfolding replay
    replay-Keeps drift cs index zero anchor = Keeps-pure _
    replay-Keeps drift cs index (suc count) anchor =
        replay_command-Keeps drift anchor _ (get_elem? cs index)
          (λ r. replay-Keeps drift cs (suc index) count r)

    rebuilt-Keeps :
        (drift : String) (upto : ℤ) (anchor : Option StateResult)
        → Keeps P (rebuilt settings drift upto anchor)
    unfolding rebuilt
    rebuilt-Keeps drift upto none = Keeps-pure false
    rebuilt-Keeps drift upto (some anchor) =
        search (keeps_rules, set_digest-Keeps, set_anchor-Keeps) depth 9

    rebuild_from-Keeps :
        (drift : String) (cs : List TheoryCommand) (r : InitStateResult)
        → Keeps P (rebuild_from settings drift cs r)
    unfolding rebuild_from
    rebuild_from-Keeps drift cs (error e) = Keeps-pure false
    rebuild_from-Keeps drift cs (success r) =
        search (keeps_rules, replay-Keeps, rebuilt-Keeps) depth 9

    rebuild-Keeps :
        (drift : String) (cs : List TheoryCommand)
        → Keeps P (rebuild_anchor_from_header settings drift cs)
    unfolding rebuild_anchor_from_header
    rebuild-Keeps drift cs = Keeps-bind _ _ (on_server-Keeps _) (rebuild_from-Keeps drift cs)

    after_drift-Keeps :
        (cs : List TheoryCommand) (state_id : String) (drift : Option String)
        → Keeps P (after_drift settings cs state_id drift)
    unfolding after_drift
    after_drift-Keeps cs state_id none = Keeps-pure true
    after_drift-Keeps cs state_id (some drift) =
        search (keeps_rules, set_digest-Keeps, rebuild-Keeps) depth 9

    anchor_from-Keeps :
        (cs : List TheoryCommand) (anchor : Option String)
        → Keeps P (anchor_from settings cs anchor)
    unfolding anchor_from
    anchor_from-Keeps cs none = bootstrap_anchor-Keeps
    anchor_from-Keeps cs (some state_id) =
        Keeps-bind _ _ (detect_drift-Keeps state_id) (after_drift-Keeps cs state_id)

    ensure_anchor-Keeps : (cs : List TheoryCommand) → Keeps P (ensure_anchor settings cs)
    unfolding ensure_anchor
    ensure_anchor-Keeps cs = search (keeps_rules, anchor_from-Keeps)

    localize_failure-Keeps :
        (state_id : String) (c : TheoryCommand) (r : StateResult)
        → Keeps P (localize_failure settings state_id c r)
    unfolding localize_failure
    localize_failure-Keeps state_id c r =
        Keeps-bind _ _ (Keeps-modify _ (λ l h. steady.number l _ h))
          (λ _. search (keeps_rules, set_digest-Keeps) depth 9)

    scan_command-Keeps :
        (index : ℕ) (c : TheoryCommand) {rest : Action (Localizer W) (Option LocalizedTask)}
        → Keeps P rest
        → (anchor : Option String) → Keeps P (scan_command settings index c rest anchor)
    unfolding scan_command
    scan_command-Keeps index c h none = search (keeps_rules, set_digest-Keeps)
    scan_command-Keeps index c h (some state_id) = Keeps-bind _ _ (Keeps-gets _) λ s.
        Keeps-bind _ _ (on_server-Keeps _) λ r.
          Keeps-if (is_success r) _ _
            (λ _.
              Keeps-bind _ _ (set_anchor-Keeps r.state_id (pos index) r.mode r.proof_level)
                (λ _. h))
            (λ _. localize_failure-Keeps state_id c r)

    scan-Keeps : (index : ℕ) (cs : List TheoryCommand) → Keeps P (scan settings index cs)
    unfolding scan
    scan-Keeps index [] = Keeps-pure none
    scan-Keeps index (c ∷ cs) =
        Keeps-bind _ _ (Keeps-gets _) (scan_command-Keeps index c (scan-Keeps (suc index) cs))

    task_among-Keeps : (cs : List TheoryCommand) → Keeps P (task_among settings cs)
    unfolding task_among
    task_among-Keeps [] = Keeps-pure none
    task_among-Keeps (c ∷ cs) = search (keeps_rules, ensure_anchor-Keeps, scan-Keeps) depth 9

    next_task-Keeps : Keeps P (next_task settings)
    unfolding next_task
    next_task-Keeps = search (keeps_rules, ensure_commands_loaded-Keeps, task_among-Keeps) depth 9

ltb_ℤ-trans : (a b c : ℤ) → ltb_ℤ b a ≡ false → ltb_ℤ c b ≡ false → ltb_ℤ c a ≡ false
ltb_ℤ-trans (pos a) (pos b) (pos c) e h = ground arith
ltb_ℤ-trans (pos a) (pos b) (negsuc c) e h = cc
ltb_ℤ-trans (pos a) (negsuc b) c e h = cc
ltb_ℤ-trans (negsuc a) b (pos c) e h = refl
ltb_ℤ-trans (negsuc a) (pos b) (negsuc c) e h = cc
ltb_ℤ-trans (negsuc a) (negsuc b) (negsuc c) e h = ground arith

module _ {W : Type 0} (settings : Settings W) where
  -- However it ends, `next_task` leaves the replacements and the texts of the snapshot alone.
  pub next_task-keeps_patches :
      (l : Localizer W)
      → let s = (next_task settings l).1.snapshot in
        (s.applied_replacements ≡ l.snapshot.applied_replacements)
        × (s.original_text ≡ l.snapshot.original_text)
        × (s.current_text ≡ l.snapshot.current_text)
  next_task-keeps_patches l =
      (next_task-Keeps
          {P = λ m.
            (m.snapshot.applied_replacements ≡ l.snapshot.applied_replacements)
            × (m.snapshot.original_text ≡ l.snapshot.original_text)
            × (m.snapshot.current_text ≡ l.snapshot.current_text)}
          (record {
            server = λ m w h. h;
            commands = λ m cs header h. h;
            number = λ m n h. h;
            digest = λ m d h. h;
            anchor = λ m state_id cursor mode level e h. h;
          })
          settings).at
        l (refl, refl, refl)

  -- However it ends, `next_task` never moves the cursor of the snapshot backwards, also where it
  -- rebuilds the anchor after a drift.
  pub next_task-cursor_monotonic :
      (l : Localizer W)
      → ltb_ℤ (next_task settings l).1.snapshot.command_cursor l.snapshot.command_cursor ≡ false
  next_task-cursor_monotonic l =
      (next_task-Keeps {P = λ m. ltb_ℤ m.snapshot.command_cursor l.snapshot.command_cursor ≡ false}
          (record {
            server = λ m w h. h;
            commands = λ m cs header h. h;
            number = λ m n h. h;
            digest = λ m d h. h;
            anchor = λ m state_id cursor mode level e h.
                ltb_ℤ-trans l.snapshot.command_cursor m.snapshot.command_cursor cursor h e;
          })
          settings).at
        l (reflexive l.snapshot.command_cursor)
    where
      reflexive : (a : ℤ) → ltb_ℤ a a ≡ false
      reflexive (pos a) = ground arith
      reflexive (negsuc a) = ground arith

  -- The path of the snapshot stays too.
  pub next_task-keeps_path :
      (l : Localizer W) → (next_task settings l).1.snapshot.theory_path ≡ l.snapshot.theory_path
  next_task-keeps_path l =
      (next_task-Keeps {P = λ m. m.snapshot.theory_path ≡ l.snapshot.theory_path}
          (record {
            server = λ m w h. h;
            commands = λ m cs header h. h;
            number = λ m n h. h;
            digest = λ m d h. h;
            anchor = λ m state_id cursor mode level e h. h;
          })
          settings).at
        l refl
