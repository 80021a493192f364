-- ===== src/Demo/Soundness.antt =====
-- What it means for the records of `execute_and_repair` to be sound.
use isabelle_repl.Base.{
  ℕ, ◌≤◌, ℤ, int_eq, ◌≡◌, ◌⊎◌, inl, inr, String, true, ◌&&◌, ◌==◌, string_eq, some, List, [], ◌∷◌,
  ◌++◌, All, return, throw, Returns, Bool-cases, Exception,
}
use isabelle_repl.Client.{StateResult, is_success, Stub, execute, run_sledgehammer}
use isabelle_repl.Demo.{Printed, repair_successful, repair_failed, Repairs, put_fix, put_state}

pub All-append :
    {A : Type 0} (P : A → Type 0) (xs ys : List A) → All P xs → All P ys → All P (xs ++ ys)
All-append P [] ys hx hy = hy
All-append P (x ∷ xs) ys hx hy = (hx.0, All-append P xs ys hx.1 hy)

pub put_fix-All :
    (P : (ℤ × String) × String → Type 0) (line : ℤ) (text tactic : String)
    (fixes : List ((ℤ × String) × String))
    → P ((line, text), tactic)
    → All P fixes
    → All P (put_fix line text tactic fixes)
put_fix-All P line text tactic [] h hs = (h, tt)
put_fix-All P line text tactic (((l, t), u) ∷ fixes) h hs =
    elim (Bool-cases ((l == line) && (t == text))) [
      | inl e ↦ rw e (h, hs.1)
      | inr e ↦ rw e (hs.0, put_fix-All P line text tactic fixes h hs.1)
    ]

pub put_state-All :
    (P : ℤ × StateResult → Type 0) (line : ℤ) (st : StateResult) (cache : List (ℤ × StateResult))
    → P (line, st)
    → All P cache
    → All P (put_state line st cache)
put_state-All P line st [] h hs = (h, tt)
put_state-All P line st ((l, s) ∷ cache) h hs = elim (Bool-cases (l == line)) [
  | inl e ↦ rw e (h, hs.1)
  | inr e ↦ rw e (hs.0, put_state-All P line st cache h hs.1)
]

pub Returns-throw : {S A : Type 0} {Q : A → Type 0} (e : Exception) → Returns {S = S} Q (throw e)
unfolding throw
Returns-throw e = record { at = λ s a h. cc }

module _ {W : Type 0} (stub : Stub W) (timeout_ms : ℕ) where
  -- The server accepted the tactic in some state: a call of `execute` with it succeeded, or
  -- Sledgehammer found it with a result that succeeded.
  pub data IsVerified (tactic : String) (st : StateResult) : Type 0 where
    by_execute :
        (source : String) (w : W)
        → (execute stub source tactic timeout_ms true w).0 ≡ return st
        → is_success st ≡ true
        → IsVerified tactic st
    by_sledgehammer :
        (source : String) (w : W)
        → (run_sledgehammer stub source timeout_ms timeout_ms w).0 ≡ return (true, tactic, some st)
        → is_success st ≡ true
        → IsVerified tactic st

  pub verified-success :
      {tactic : String} {st : StateResult} → IsVerified tactic st → is_success st ≡ true
  verified-success (by_execute source w e h) = h
  verified-success (by_sledgehammer source w e h) = h

  abbrev pub IsFixed : (ℤ × String) × String → Type 0
  IsFixed f = (st : StateResult) × IsVerified f.1 st

  -- A success, or the state after the header.
  abbrev pub IsCached : StateResult → ℤ × StateResult → Type 0
  IsCached first e = (e.1 ≡ first) ⊎ (is_success e.1 ≡ true)

  abbrev pub IsWithin : ℕ → Printed → Type 0
  IsWithin limit (repair_successful line trial original attempt) = (1 ≤ trial) × (trial ≤ limit)
  IsWithin limit (repair_failed line trial original) = trial ≡ limit
  IsWithin limit _ = Unit

  pub record IsSound (limit : ℕ) (first : StateResult) (r : Repairs) : Type 0 where
    pub fixes : All IsFixed r.fixes
    pub cached : All (IsCached first) r.state_cache
    pub printed : All (IsWithin limit) r.printed
