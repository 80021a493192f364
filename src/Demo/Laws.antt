-- ===== src/Demo/Laws.antt =====
-- What `execute_and_repair` records: only tactics that the server accepted, and no more attempts than
-- the limit.
use isabelle_repl.Base.{
  ℕ, zero, suc, ◌+◌, ◌≤◌, int_eq, ◌≡◌, refl, inl, inr, String, truthy, Bool, true, false, ◌&&◌,
  ◌==◌, string_eq, Option, none, some, List, [], ◌∷◌, ◌++◌, All, arith, Action, return,
  foreign_error, Returns, Returns-pure, Returns-if, Returns-bind, Bool-cases, if◌then◌else◌,
}
use isabelle_repl.Client.{
  StateResult, is_success, TheoryCommand, InitStateResult, success, error, Stub, init_after_header,
  run_sledgehammer,
}
use isabelle_repl.Demo.{
  RepairHook, Printed, sledgehammer_found, repair_successful, repair_failed, error_outside_proof,
  Repairs, advanced, repaired, after_header, Round, try_repairs, after_repairs, repair_by_hook,
  accepted_tactic, ask_for_tactic, or_hook, process_command, go_on, process_commands, from_header,
  if_initialised, execute_and_repair,
}
use isabelle_repl.Demo.Soundness.{
  All-append, put_fix-All, put_state-All, Returns-throw, IsVerified, by_execute, by_sledgehammer,
  verified-success, IsFixed, IsCached, IsWithin, IsSound,
}

module _ {W : Type 0} (stub : Stub W) (timeout_ms : ℕ) where
  -- What `try_repairs` gives after `trial` attempts, of `limit`.
  abbrev IsRepair : ℕ → ℕ × Option (String × StateResult) → Type 0
  IsRepair limit (trial, none) = trial ≡ limit
  IsRepair limit (trial, some (attempt, st)) =
      (1 ≤ trial) × (trial ≤ limit) × IsVerified stub timeout_ms attempt st

  abbrev IsTactic : Option (String × StateResult) → Type 0
  IsTactic none = Unit
  IsTactic (some (tactic, st)) = IsVerified stub timeout_ms tactic st

  module _ (hook : RepairHook W) (theory_file : String) (limit : ℕ) where
    try_repairs-IsRepair :
        (left trial : ℕ) (cmd : TheoryCommand) (next_state state : StateResult)
        → left + trial ≡ limit
        → Returns
            (IsRepair limit)
            (try_repairs stub hook theory_file timeout_ms left trial cmd next_state state)
    unfolding try_repairs
    try_repairs-IsRepair zero trial cmd next_state state h = Returns-pure _ _ (omega (arith, h))
    try_repairs-IsRepair (suc left) trial cmd next_state state h = Returns-bind _ _ _ λ attempt _ _.
        Returns-bind _ _ _ λ st w e.
          Returns-if _ (is_success st) _ _
            (λ ok.
              Returns-pure _ _ (omega arith, omega (arith, h), by_execute state.state_id w e ok))
            (λ _. try_repairs-IsRepair left (suc trial) cmd next_state state (omega (arith, h)))

    taken-IsTactic :
        (tactic : String) (st : StateResult) (source : String) (w : W) (accepts : Bool)
        → truthy tactic && is_success st ≡ accepts
        → (run_sledgehammer stub source timeout_ms timeout_ms w).0 ≡ return (true, tactic, some st)
        → IsTactic (if accepts then some (tactic, st) else none)
    taken-IsTactic tactic st source w true h e = by_sledgehammer source w e (ground (arith, h))
    taken-IsTactic tactic st source w false h e = tt

    accepted_tactic-IsTactic :
        (reply : Bool × String × Option StateResult) (source : String) (w : W)
        → (run_sledgehammer stub source timeout_ms timeout_ms w).0 ≡ return reply
        → Returns IsTactic (accepted_tactic stub hook theory_file timeout_ms reply)
    accepted_tactic-IsTactic (false, tactic, none) source w e = Returns-pure _ none tt
    accepted_tactic-IsTactic (true, tactic, none) source w e =
        Returns-if _ (truthy tactic) _ _ (λ _. Returns-throw (foreign_error "AttributeError"))
          (λ _. Returns-pure _ none tt)
    accepted_tactic-IsTactic (false, tactic, some st) source w e = Returns-pure _ none tt
    accepted_tactic-IsTactic (true, tactic, some st) source w e =
        Returns-pure _ _ (taken-IsTactic tactic st source w _ refl e)

    ask_for_tactic-IsTactic :
        (try_sledgehammer : Bool) (state : StateResult)
        → Returns IsTactic (ask_for_tactic stub hook theory_file timeout_ms try_sledgehammer state)
    unfolding ask_for_tactic
    ask_for_tactic-IsTactic try_sledgehammer state =
        Returns-if _ (try_sledgehammer && (state.mode == "PROOF")) _ _
          (λ _. Returns-bind _ _ _ λ reply w e. accepted_tactic-IsTactic reply state.state_id w e)
          (λ _. Returns-pure _ none tt)

    module _ (first : StateResult) (r : Repairs)
        (sound : IsSound stub timeout_ms limit first r) where
      advanced-IsSound :
          (cmd : TheoryCommand) (st : StateResult)
          → is_success st ≡ true
          → IsSound stub timeout_ms limit first (advanced cmd st r)
      advanced-IsSound cmd st ok = record {
        fixes = sound.fixes;
        cached =
            put_state-All (IsCached stub timeout_ms first) cmd.line st r.state_cache (inr ok)
              sound.cached;
        printed = sound.printed;
      }

      repaired-IsSound :
          (cmd : TheoryCommand) (tactic : String) (st : StateResult) (line : Printed)
          → IsVerified stub timeout_ms tactic st
          → IsWithin stub timeout_ms limit line
          → IsSound stub timeout_ms limit first (repaired cmd tactic st line r)
      repaired-IsSound cmd tactic st line ok within = record {
        fixes =
            put_fix-All (IsFixed stub timeout_ms) cmd.line cmd.text tactic r.fixes (st, ok)
              sound.fixes;
        cached =
            put_state-All (IsCached stub timeout_ms first) cmd.line st r.state_cache
              (inr (verified-success stub timeout_ms ok)) sound.cached;
        printed =
            All-append (IsWithin stub timeout_ms limit) r.printed (line ∷ []) sound.printed
              (within, tt);
      }

      printed-IsSound :
          (lines : List Printed)
          → All (IsWithin stub timeout_ms limit) lines
          → IsSound stub timeout_ms limit first (record r { printed = r.printed ++ lines })
      printed-IsSound lines within = record {
        fixes = sound.fixes;
        cached = sound.cached;
        printed = All-append (IsWithin stub timeout_ms limit) r.printed lines sound.printed within;
      }

      after_repairs-IsSound :
          (cmd : TheoryCommand) (repair : ℕ × Option (String × StateResult))
          → IsRepair limit repair
          → IsSound stub timeout_ms limit first
              (after_repairs stub hook theory_file timeout_ms cmd r repair).1
      after_repairs-IsSound cmd (trial, some (attempt, st)) h =
          repaired-IsSound cmd attempt st (repair_successful cmd.line trial cmd.text attempt) h.2
            (h.0, h.1)
      after_repairs-IsSound cmd (trial, none) h = elim (Bool-cases (r.state.mode == "PROOF")) [
        | inl e ↦ rw e (printed-IsSound (repair_failed cmd.line trial cmd.text ∷ []) (h, tt))
        | inr e ↦ rw e (
            printed-IsSound
              (repair_failed cmd.line trial cmd.text ∷ error_outside_proof cmd.line ∷ [])
              (h, (tt, tt)))
      ]

      abbrev IsSoundRound : Round → Type 0
      IsSoundRound done = IsSound stub timeout_ms limit first done.1

      repair_by_hook-IsSound :
          (cmd : TheoryCommand) (next_state : StateResult)
          → Returns IsSoundRound
              (repair_by_hook stub hook theory_file timeout_ms limit cmd next_state r)
      unfolding repair_by_hook
      repair_by_hook-IsSound cmd next_state = Returns-bind _ _ _ λ repair w e. Returns-pure _ _ (
          after_repairs-IsSound cmd repair
            ((try_repairs-IsRepair limit 0 cmd next_state r.state (omega arith)).at w repair e))

      or_hook-IsSound :
          (cmd : TheoryCommand) (next_state : StateResult) (tactic : Option (String × StateResult))
          → IsTactic tactic
          → Returns IsSoundRound
              (or_hook stub hook theory_file timeout_ms limit cmd next_state r tactic)
      or_hook-IsSound cmd next_state none h = repair_by_hook-IsSound cmd next_state
      or_hook-IsSound cmd next_state (some (tactic, st)) h =
          Returns-pure _ _
            (repaired-IsSound cmd tactic st (sledgehammer_found cmd.line tactic) h tt)

      process_command-IsSound :
          (try_sledgehammer : Bool) (cmd : TheoryCommand)
          → Returns IsSoundRound
              (process_command stub hook theory_file timeout_ms limit try_sledgehammer cmd r)
      unfolding process_command
      process_command-IsSound try_sledgehammer cmd = Returns-bind _ _ _ λ next_state _ _.
          Returns-if _ (is_success next_state) _ _
            (λ ok. Returns-pure _ _ (advanced-IsSound cmd next_state ok))
            (λ _. Returns-bind _ _ _ λ tactic w e.
              or_hook-IsSound cmd next_state tactic
                ((ask_for_tactic-IsTactic try_sledgehammer r.state).at w tactic e))

    go_on-IsSound :
        (first : StateResult) (rest : Repairs → Action W Repairs)
        → ((r : Repairs)
            → IsSound stub timeout_ms limit first r
            → Returns (IsSound stub timeout_ms limit first) (rest r))
        → (done : Round) → IsSound stub timeout_ms limit first done.1
        → Returns
            (IsSound stub timeout_ms limit first)
            (go_on stub hook theory_file timeout_ms rest done)
    go_on-IsSound first rest h (true, r) sound = h r sound
    go_on-IsSound first rest h (false, r) sound = Returns-pure _ r sound

    process_commands-IsSound :
        (first : StateResult) (try_sledgehammer : Bool) (cmds : List TheoryCommand) (r : Repairs)
        → IsSound stub timeout_ms limit first r
        → Returns
            (IsSound stub timeout_ms limit first)
            (process_commands stub hook theory_file timeout_ms limit try_sledgehammer cmds r)
    unfolding process_commands
    process_commands-IsSound first try_sledgehammer [] r sound = Returns-pure _ r sound
    process_commands-IsSound first try_sledgehammer (cmd ∷ cmds) r sound =
        Returns-bind _ _ _ λ done w e.
          go_on-IsSound first _ (process_commands-IsSound first try_sledgehammer cmds) done
            ((process_command-IsSound first r sound try_sledgehammer cmd).at w done e)

    from_header-IsSound :
        (first : StateResult) (try_sledgehammer : Bool)
        (found : Option (TheoryCommand × List TheoryCommand))
        → Returns
            (IsSound stub timeout_ms limit first)
            (from_header stub hook theory_file timeout_ms limit try_sledgehammer first found)
    from_header-IsSound first try_sledgehammer none = Returns-throw (foreign_error "StopIteration")
    from_header-IsSound first try_sledgehammer (some (header, cmds)) =
        process_commands-IsSound first try_sledgehammer cmds _
          (record { fixes = tt; cached = (inl refl, tt); printed = tt })

    -- The state after the header, as a call of the server gave it.
    abbrev pub IsFirst : String → StateResult → Type 0
    IsFirst session_id first =
        (w : W) × ((init_after_header stub session_id theory_file 60000 true w).0
          ≡ return (success first))

    abbrev pub IsSoundIfAny : String → Option Repairs → Type 0
    IsSoundIfAny session_id none = Unit
    IsSoundIfAny session_id (some r) =
        (first : StateResult) × IsFirst session_id first × IsSound stub timeout_ms limit first r

    if_initialised-IsSound :
        (session_id : String) (try_sledgehammer : Bool) (commands : List TheoryCommand)
        (init_state : InitStateResult) (w : W)
        → (init_after_header stub session_id theory_file 60000 true w).0 ≡ return init_state
        → Returns (IsSoundIfAny session_id) (
            if_initialised stub hook theory_file timeout_ms limit try_sledgehammer commands
              init_state)
    if_initialised-IsSound session_id try_sledgehammer commands (error x) w e =
        Returns-pure _ none tt
    if_initialised-IsSound session_id try_sledgehammer commands (success first) w e =
        Returns-bind _ _ _ λ r w' e'. Returns-pure _ (some r) (
          first,
          (w, e),
          (from_header-IsSound first try_sledgehammer (after_header commands)).at w' r e',
        )

    -- When the demo's loop ends, every fix that it has is a text that the server accepted, every state
    -- in its cache is a success but for the one after the header, the attempts that it counts for a
    -- repair are between one and the limit, and those that it counts for a failed repair are as many
    -- as the limit.
    pub execute_and_repair-IsSound :
        (session_id : String) (try_sledgehammer : Bool) (w : W) (end : Option Repairs)
        → (execute_and_repair stub hook theory_file timeout_ms session_id limit try_sledgehammer
            w).0
          ≡ return end
        → IsSoundIfAny session_id end
    unfolding execute_and_repair
    execute_and_repair-IsSound session_id try_sledgehammer w end e = sound.at w end e
      where
        sound :
            Returns (IsSoundIfAny session_id) (
              execute_and_repair stub hook theory_file timeout_ms session_id limit try_sledgehammer)
        sound = Returns-bind _ _ _ λ commands _ _. Returns-bind _ _ _ λ init_state w' e'.
            if_initialised-IsSound session_id try_sledgehammer commands init_state w' e'
