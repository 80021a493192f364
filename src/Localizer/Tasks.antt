-- ===== src/Localizer/Tasks.antt =====
-- The tasks that `next_task` returns.
use isabelle_repl.Base.{
  Outcome, raise, out_of_fuel, and_then, return-injective, pure, gets, modify, ◌>>=◌, false, true,
  pos, if◌then◌else◌, Outcome, pos, return-injective, if◌then◌else◌, pure, false, modify, Bool,
  gets, true, ◌>>=◌, ℕ, suc, ◌≡◌, refl, String, Option, none, some, List, [], ◌∷◌, map, All,
  string_eq, Action, return, Returns, Returns-pure, Returns-if, Returns-bind,
}
use isabelle_repl.Model.{LocalizedTask, RepairBlockCandidate}
use isabelle_repl.Contracts.{contract_for_block_kind}
use isabelle_repl.Client.{execute, StateResult, TheoryCommand, is_success}
use isabelle_repl.Snapshot.{set_anchor, Snapshot}
use isabelle_repl.Localizer.{
  anchored, effective_text, Settings, Localizer, default_fallback_candidates, failed_task,
  localize_failure, scan_command, scan, task_among, next_task,
}

-- A task about a failure: it names the state from which
-- the server, when it was asked to execute the block's text, gave a result that is no success, and
-- that result's message. Its fallback candidates have the contracts of their block kinds, its chain
-- lists their kinds, and its own kind comes first.
pub record IsStartable {W : Type 0} (settings : Settings W) (t : LocalizedTask) : Type 0 where
  pub contracts :
      All (λ c. contract_for_block_kind c.block_kind ≡ some c.block_contract) t.fallback_candidates
  pub chain : t.metadata.fallback_chain ≡ some (map (λ c. c.block_kind) t.fallback_candidates)
  pub first :
      (c : RepairBlockCandidate) × (cs : List RepairBlockCandidate) × (t.fallback_candidates
        ≡ c ∷ cs)
      × (c.block_kind ≡ t.block_kind)
      × (c.origin ≡ "primary")
  pub state_id : String
  pub asked : W
  pub reply : StateResult
  pub start : t.metadata.source_state_id ≡ some state_id
  pub replied :
      (execute settings.stub state_id t.block_text settings.timeout_ms true asked).0 ≡ return reply
  pub no_success : is_success reply ≡ false
  pub message : t.metadata.error_msg ≡ some reply.error_msg

abbrev pub IsStartableIfAny : {W : Type 0} → Settings W → Option LocalizedTask → Type 0
IsStartableIfAny settings none = Unit
IsStartableIfAny settings (some t) = IsStartable settings t

module _ {W : Type 0} (settings : Settings W) where
  failed_task-IsStartable :
      (number : ℕ) (s : Snapshot) (state_id : String) (c : TheoryCommand) (r : StateResult) (w : W)
      → (execute settings.stub state_id (effective_text s c) settings.timeout_ms true w).0
        ≡ return r
      → is_success r ≡ false
      → IsStartable settings (failed_task settings number s state_id c r)
  unfolding failed_task default_fallback_candidates contract_for_block_kind string_eq
  failed_task-IsStartable number s state_id c r w replied no_success = record {
    contracts = (refl, (refl, (refl, tt)));
    chain = refl;
    first = (_, _, refl, refl, refl);
    state_id = state_id;
    asked = w;
    reply = r;
    start = refl;
    replied = replied;
    no_success = no_success;
    message = refl;
  }

  localize_failure-IsStartable :
      (l : Localizer W) (state_id : String) (c : TheoryCommand) (r : StateResult) (w : W)
      → (execute settings.stub state_id (effective_text l.snapshot c) settings.timeout_ms true w).0
        ≡ return r
      → is_success r ≡ false
      → (t : Option LocalizedTask) → (localize_failure settings state_id c r l).0 ≡ return t
      → IsStartableIfAny settings t
  unfolding localize_failure ◌>>=◌ gets modify pure
  localize_failure-IsStartable l state_id c r w replied no_success t e =
      rw⁻¹ (return-injective _ t e) (
        failed_task-IsStartable (suc l.next_task_number) l.snapshot state_id c r w replied
          no_success)

  scan_command-IsStartable :
      (index : ℕ) (c : TheoryCommand) (rest : Action (Localizer W) (Option LocalizedTask))
      (anchor : Option String)
      → Returns (IsStartableIfAny settings) rest
      → Returns (IsStartableIfAny settings) (scan_command settings index c rest anchor)
  unfolding scan_command ◌>>=◌ gets modify pure
  scan_command-IsStartable index c rest none h = record {
    at = λ l t e. rw⁻¹ (return-injective none t e) tt;
  }
  scan_command-IsStartable index c rest (some state_id) h = record {
    at = λ l t e.
        let reply =
          execute settings.stub state_id (effective_text l.snapshot c) settings.timeout_ms true
            l.server in
        after_reply l t reply.0 reply.1 refl e;
  }
    where
      decided :
          (l : Localizer W) (w : W) (t : Option LocalizedTask) (r : StateResult) (ok : Bool)
          → is_success r ≡ ok
          → (execute settings.stub state_id
              (effective_text l.snapshot c)
              settings.timeout_ms
              true
              w).0
            ≡ return r
          → (if◌then◌else◌ {A = Action (Localizer W) (Option LocalizedTask)} ok
              (anchored (set_anchor r.state_id (pos index) r.mode r.proof_level) >>= λ _. rest)
              (localize_failure settings state_id c r)
              l).0
            ≡ return t
          → IsStartableIfAny settings t
      decided l w t r true ok replied e =
          (Returns-bind (IsStartableIfAny settings)
              (anchored (set_anchor r.state_id (pos index) r.mode r.proof_level)) (λ _. rest)
              (λ _ _ _. h)).at
            l t e
      decided l w t r false ok replied e =
          localize_failure-IsStartable l state_id c r w replied ok t e

      after_reply :
          (l : Localizer W) (t : Option LocalizedTask) (o : Outcome StateResult) (w : W)
          → (execute settings.stub state_id
              (effective_text l.snapshot c)
              settings.timeout_ms
              true
              l.server).0
            ≡ o
          → (and_then o
              (λ r.
                if is_success r
                then (anchored (set_anchor r.state_id (pos index) r.mode r.proof_level) >>= λ _.
                    rest)
                else localize_failure settings state_id c r)
              (record l { server = w })).0
            ≡ return t
          → IsStartableIfAny settings t
      after_reply l t (return r) w replied e =
          decided (record l { server = w }) l.server t r (is_success r) refl replied e
      after_reply l t (raise x) w replied e = cc e
      after_reply l t out_of_fuel w replied e = cc e

  scan-IsStartable :
      (index : ℕ) (cs : List TheoryCommand)
      → Returns (IsStartableIfAny settings) (scan settings index cs)
  unfolding scan
  scan-IsStartable index [] = Returns-pure _ _ tt
  scan-IsStartable index (c ∷ cs) =
      Returns-bind _ _ _
        λ anchor _ _. scan_command-IsStartable index c _ anchor (scan-IsStartable (suc index) cs)

  task_among-IsStartable :
      (cs : List TheoryCommand) → Returns (IsStartableIfAny settings) (task_among settings cs)
  unfolding task_among
  task_among-IsStartable [] = Returns-pure _ _ tt
  task_among-IsStartable (c ∷ cs) = Returns-bind _ _ _ λ ok _ _.
      Returns-bind _ _ _
        λ start _ _. Returns-if _ ok _ _ (λ _. scan-IsStartable start _) (λ _. Returns-pure _ _ tt)

  -- A task that `next_task` returns is about a failure: it names the state from which the server, when
  -- asked to execute the text of the task's block, gave a result that is no success, and the message
  -- of that result. Its fallback candidates have the contracts that belong to their block kinds, its fallback chain
  -- lists these kinds, and the first of them is the primary one, of the task's own kind.
  pub next_task-IsStartable :
      (l : Localizer W) (t : LocalizedTask)
      → (next_task settings l).0 ≡ return (some t)
      → IsStartable settings t
  unfolding next_task
  next_task-IsStartable l t e = startable.at l (some t) e
    where
      startable : Returns (IsStartableIfAny settings) (next_task settings)
      startable = Returns-bind _ _ _ λ _ _ _. Returns-bind _ _ _ λ cs _ _. task_among-IsStartable cs
