-- ===== src/Orchestrator/Phases.antt =====
-- The states of a run: which of them follow which, and what stands beside each of them
-- (docs/v1_5/contracts/theory-repair-run-state-machine-contract.md).
pub mod Steady
pub mod Reviews
pub mod Artifacts
pub mod Resume
pub mod Pending
pub mod Loop
use isabelle_repl.Base.{
  ℕ, ◌≡◌, refl, ◌⊎◌, String, Bool, true, false, Option, none, some, List, contains, string_eq,
  subst,
}
use isabelle_repl.Model.{
  RunState, active, awaiting_review, stopped, completed, finished, ReviewReason,
  policy_requires_review, task_escalated_requires_review, placeholder_policy_requires_review,
  continuation_policy_requires_review, PendingReview, TerminalReason, stopped_task_failed,
  stopped_by_review_stop, stopped_continuation_denied, target_boundary_completed,
  theory_wide_finished, request_committed_placeholder, response_kind_eq,
}
use isabelle_repl.Orchestrator.State.{Parts, Orchestrator, is_awaiting, target_boundary_reached}

-- The contract's table of transitions.
pub data Transition : RunState → RunState → Type 0 where
  to_review : Transition active awaiting_review
  from_review : Transition awaiting_review active
  to_stopped : Transition active stopped
  to_completed : Transition active completed
  to_finished : Transition active finished

-- Any number of transitions.
pub data Reaches (from : RunState) : RunState → Type 0 where
  stay : Reaches from from
  then_to : {mid to : RunState} → Reaches from mid → Transition mid to → Reaches from to

-- The reasons that go with a terminal state.
abbrev pub EndsWith : RunState → TerminalReason → Type 0
EndsWith stopped stopped_task_failed = Unit
EndsWith stopped stopped_by_review_stop = Unit
EndsWith stopped stopped_continuation_denied = Unit
EndsWith completed target_boundary_completed = Unit
EndsWith finished theory_wide_finished = Unit
EndsWith _ _ = ⊥

-- A review of a continuation does not offer a placeholder.
abbrev pub OffersFor : ReviewReason → Bool → Type 0
OffersFor continuation_policy_requires_review offered = offered ≡ false
OffersFor _ offered = Unit

abbrev pub IsReview : PendingReview → Type 0
IsReview p =
    OffersFor p.context.reason_code
      (contains p.context.allowed_response_kinds request_committed_placeholder)

-- A review is pending in `awaiting_review` and in no other state, and there is a terminal reason in a
-- terminal state and in no other, which fits the state.
abbrev pub IsPhase : RunState → Option PendingReview → Option TerminalReason → Type 0
IsPhase active none none = Unit
IsPhase active _ _ = ⊥
IsPhase awaiting_review (some p) none = IsReview p
IsPhase awaiting_review _ _ = ⊥
IsPhase st none (some reason) = EndsWith st reason
IsPhase _ _ _ = ⊥

-- What the state machine reads of a run; `done` says whether the artifact of the current task is
-- applied.
pub record Phase : Type 0 where
  pub state : RunState
  pub pending_review : Option PendingReview
  pub terminal_reason : Option TerminalReason
  pub task_id : String
  pub done : Bool
  pub count : ℕ

abbrev pub phase : {W : Type 0} → Orchestrator W → Phase
phase s = record {
  state = s.state;
  pending_review = s.pending_review;
  terminal_reason = s.terminal_reason;
  task_id = s.current_result.task_id;
  count = s.accepted_artifact_count;
  done = contains s.applied_artifact_task_ids s.current_result.task_id;
}

-- Consistent, reached from the state `from`, completed once the target is reached, and with the
-- current task done if `kept` says so.
pub record IsGood {W : Type 0} (parts : Parts W) (from : RunState) (kept : Bool) (v : Phase)
    : Type 0 where
  pub consistent : IsPhase v.state v.pending_review v.terminal_reason
  pub reached : Reaches from v.state
  pub target : target_boundary_reached parts v.count ≡ true → v.state ≡ completed
  pub remains : kept ≡ true → v.done ≡ true

abbrev pub IsActive : Phase → Type 0
IsActive v = v.state ≡ active

-- Active, or with nothing left to apply.
abbrev pub IsReady : Phase → Type 0
IsReady v = IsActive v ⊎ (v.done ≡ true)

abbrev pub IsOrdinaryReason : ReviewReason → Type 0
IsOrdinaryReason continuation_policy_requires_review = ⊥
IsOrdinaryReason _ = Unit

-- The pending review is not one of a continuation.
abbrev IsOrdinaryPending : Option PendingReview → Type 0
IsOrdinaryPending none = Unit
IsOrdinaryPending (some p) = IsOrdinaryReason p.context.reason_code

abbrev pub IsOrdinary : Phase → Type 0
IsOrdinary v = IsOrdinaryPending v.pending_review

abbrev pub Anything : Phase → Type 0
Anything v = Unit

abbrev pub Whatever : {A : Type 0} → A → Phase → Type 0
Whatever a v = Unit

active-alone :
    (st : RunState) (pending : Option PendingReview) (reason : Option TerminalReason)
    → st ≡ active
    → IsPhase st pending reason
    → (pending ≡ none) × (reason ≡ none)
active-alone active none none e h = (refl, refl)
active-alone active none (some r) e h = absurd h
active-alone active (some p) none e h = absurd h
active-alone active (some p) (some r) e h = absurd h
active-alone awaiting_review _ _ e h = cc
active-alone stopped _ _ e h = cc
active-alone completed _ _ e h = cc
active-alone finished _ _ e h = cc

module _ {W : Type 0} {parts : Parts W} {from : RunState} {kept : Bool} (v : Phase) where
  -- An active run may go to any other state, with what belongs to it.
  pub move :
      (st : RunState) (pending : Option PendingReview) (reason : Option TerminalReason)
      → IsGood parts from kept v
      → IsActive v
      → Transition active st
      → (v.pending_review ≡ none → v.terminal_reason ≡ none → IsPhase st pending reason)
      → IsGood parts from kept
          (record v { state = st; pending_review = pending; terminal_reason = reason })
  move st pending reason good is_active t fits =
      let (p, r) =
        active-alone v.state v.pending_review v.terminal_reason is_active good.consistent in
      record {
        consistent = fits p r;
        reached = then_to (subst (Reaches from) is_active good.reached) t;
        target = λ e. absurd (cc (good.target e, is_active));
        remains = good.remains;
      }

abbrev IsReviewOf : Option PendingReview → Type 0
IsReviewOf none = Unit
IsReviewOf (some p) = IsReview p

pending-alone :
    (st : RunState) (pending : Option PendingReview) (reason : Option TerminalReason)
    (p : PendingReview)
    → is_awaiting st ≡ true
    → pending ≡ some p
    → IsPhase st pending reason
    → (st ≡ awaiting_review) × (reason ≡ none) × IsReview p
pending-alone awaiting_review (some q) none p a e h = (refl, refl, subst IsReviewOf e h)
pending-alone awaiting_review (some q) (some r) p a e h = absurd h
pending-alone awaiting_review none reason p a e h = cc
pending-alone active _ _ p a e h = cc
pending-alone stopped _ _ p a e h = cc
pending-alone completed _ _ p a e h = cc
pending-alone finished _ _ p a e h = cc

module _ {W : Type 0} {parts : Parts W} {from : RunState} {kept : Bool} (v : Phase)
    (p : PendingReview) where
  -- A run that waits for a review may go on, and the review was one that may be asked for.
  pub reopen :
      IsGood parts from kept v
      → is_awaiting v.state ≡ true
      → v.pending_review ≡ some p
      → IsReview p × IsGood parts from kept (record v { state = active; pending_review = none })
  reopen good awaiting pending =
      let (st, r, review) =
        pending-alone v.state v.pending_review v.terminal_reason p awaiting pending
          good.consistent in
      (
        review,
        record {
          consistent = rw r tt;
          reached = then_to (subst (Reaches from) st good.reached) from_review;
          target = λ e. absurd (cc (good.target e, st));
          remains = good.remains;
        },
      )
