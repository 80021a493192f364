-- ===== src/Orchestrator/Terminal.antt =====
-- A run that has ended: what another call of `run_until_terminal` does.
use isabelle_repl.Base.{
  ℤ, ℕ, zero, suc, ◌≤◌, Bool, Outcome, raise, out_of_fuel, and_then, pure, gets, if◌then◌else◌,
  arith, false, ◌≡◌, refl, ◌++◌, ◌∷◌, [], String, true, false, Option, none, List, return, ◌>>=◌,
  Bool-cases, Option-cases, inl, inr,
}
use isabelle_repl.Model.{RunState, active, awaiting_review, stopped, completed, finished, RunRecord}
use isabelle_repl.Records.{RecordStore, RunRecordFactory, create}
use isabelle_repl.Orchestrator.State.{
  Parts, Orchestrator, EventPayload, run_started, Event, is_active, is_terminal_state, emit,
}
use isabelle_repl.Orchestrator.Recording.{append_record, record_terminal, record_terminal_for}
use isabelle_repl.Orchestrator.Loop.{steps_of, round, proceed, loop, conclude, run_until_terminal}

-- What a run is about, without its events and records.
pub record IsUnchanged {W : Type 0} (s t : Orchestrator W) : Type 0 where
  pub state : t.state ≡ s.state
  pub pending_review : t.pending_review ≡ s.pending_review
  pub world : t.world ≡ s.world
  pub snapshot : t.snapshot ≡ s.snapshot
  pub applied : t.applied_artifact_task_ids ≡ s.applied_artifact_task_ids
  pub count : t.accepted_artifact_count ≡ s.accepted_artifact_count
  pub terminal_reason : t.terminal_reason ≡ s.terminal_reason

appended-IsUnchanged :
    {W : Type 0} (s : Orchestrator W) (es : List Event) (rs : List RunRecord)
    (stores : List RecordStore) (factory : RunRecordFactory)
    → IsUnchanged s
        (record s { events = es; record_store = stores; records = rs; record_factory = factory })
appended-IsUnchanged s es rs stores factory = record {
  state = refl;
  pending_review = refl;
  world = refl;
  snapshot = refl;
  applied = refl;
  count = refl;
  terminal_reason = refl;
}

after_event :
    {W : Type 0} (es : List Event) (s t : Orchestrator W)
    → IsUnchanged (record s { events = es }) t
    → IsUnchanged s t
after_event es s t h = record {
  state = h.state;
  pending_review = h.pending_review;
  world = h.world;
  snapshot = h.snapshot;
  applied = h.applied;
  count = h.count;
  terminal_reason = h.terminal_reason;
}

not_active : (state : RunState) → is_terminal_state state ≡ true → is_active state ≡ false
not_active active h = cc
not_active awaiting_review h = refl
not_active stopped h = refl
not_active completed h = refl
not_active finished h = refl

module _ {W : Type 0} (parts : Parts W) (fuel : ℕ) where
  -- An event changes only the events.
  emit-events :
      (task_id : Option String) (payload : EventPayload) (s : Orchestrator W)
      → (es : List Event) × (emit parts task_id payload s ≡ (return tt, record s { events = es }))
  unfolding emit
  emit-events task_id payload s = elim (Bool-cases parts.has_logger) [
    | inl logs ↦ (
      s.events ++ (record { payload = payload; task_id = task_id; state = s.state }) ∷ [],
      rw logs refl,
    )
    | inr silent ↦ (s.events, rw silent refl)
  ]

  loop-not_active :
      (steps : ℕ) (s : Orchestrator W)
      → is_active s.state ≡ false
      → loop parts fuel steps s ≡ (return tt, s)
  unfolding loop ◌>>=◌
  loop-not_active zero s h = refl
  loop-not_active (suc steps) s h = rw h refl

  conclude-IsUnchanged :
      (max_steps : ℤ) (s : Orchestrator W)
      → is_terminal_state s.state ≡ true
      → ((conclude parts fuel max_steps s).0 ≡ return s.state)
        × IsUnchanged s (conclude parts fuel max_steps s).1
  unfolding conclude emit record_terminal record_terminal_for append_record create ◌>>=◌
  conclude-IsUnchanged max_steps s h = elim (Bool-cases parts.has_logger) [
    | inl logs ↦ elim (Option-cases s.terminal_reason) [
      | inl e ↦ rw (h, logs, e) (refl, appended-IsUnchanged _ _ _ _ _)
      | inr (reason, e) ↦ rw (h, logs, e) (refl, appended-IsUnchanged _ _ _ _ _)
    ]
    | inr silent ↦ elim (Option-cases s.terminal_reason) [
      | inl e ↦ rw (h, silent, e) (refl, appended-IsUnchanged _ _ _ _ _)
      | inr (reason, e) ↦ rw (h, silent, e) (refl, appended-IsUnchanged _ _ _ _ _)
    ]
  ]

  -- A call of `run_until_terminal` on a run in a terminal state returns that state and leaves the run
  -- as it is but for its events and records: no part behind it is called and no artifact is applied.
  pub run_until_terminal-terminal :
      (max_steps : ℤ) (s : Orchestrator W)
      → is_terminal_state s.state ≡ true
      → ((run_until_terminal parts fuel max_steps s).0 ≡ return s.state)
        × IsUnchanged s (run_until_terminal parts fuel max_steps s).1
  unfolding run_until_terminal ◌>>=◌
  run_until_terminal-terminal max_steps s h =
      let (es, e) =
        emit-events none (run_started max_steps parts.run_mode parts.target_max_tasks) s in
      rw (e, loop-not_active (steps_of max_steps) (record s { events = es }) (not_active s.state h))
        (let (r, u) = conclude-IsUnchanged max_steps (record s { events = es }) h in
          (r, after_event es s _ u))

module _ {W : Type 0} (parts : Parts W) (fuel : ℕ) where
  -- The rest of the loop after a round, with its steps and with more of them.
  proceed-more_steps :
      (steps total : ℕ) (r : Outcome Bool) (s : Orchestrator W)
      → ((t : Orchestrator W)
          → (loop parts fuel steps t).0 ≡ return tt
          → is_active (loop parts fuel steps t).1.state ≡ false
          → loop parts fuel total t ≡ loop parts fuel steps t)
      → (and_then r (proceed parts fuel (loop parts fuel steps)) s).0 ≡ return tt
      → is_active (and_then r (proceed parts fuel (loop parts fuel steps)) s).1.state ≡ false
      → and_then r (proceed parts fuel (loop parts fuel total)) s
        ≡ and_then r (proceed parts fuel (loop parts fuel steps)) s
  proceed-more_steps steps total (return true) s more returned left = more s returned left
  proceed-more_steps steps total (return false) s more returned left = refl
  proceed-more_steps steps total (raise e) s more returned left = refl
  proceed-more_steps steps total out_of_fuel s more returned left = refl

  -- If the loop returns within some number of steps and the run is not active then, it does the same
  -- with any larger number of steps: a run that gets to its end is not changed by a larger limit.
  pub loop-more_steps :
      (steps total : ℕ) (s : Orchestrator W)
      → steps ≤ total
      → (loop parts fuel steps s).0 ≡ return tt
      → is_active (loop parts fuel steps s).1.state ≡ false
      → loop parts fuel total s ≡ loop parts fuel steps s
  unfolding loop ◌>>=◌ gets
  loop-more_steps zero total s h returned left = loop-not_active parts fuel total s left
  loop-more_steps (suc steps) zero s h returned left = absurd (omega (arith, h))
  loop-more_steps (suc steps) (suc total) s h returned left =
      let first = (if is_active s.state then round parts fuel else pure false) s in
      proceed-more_steps steps total first.0 first.1
        (λ t. loop-more_steps steps total t (omega (arith, h))) returned left
