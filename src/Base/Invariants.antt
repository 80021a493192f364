-- ===== src/Base/Invariants.antt =====
-- Rules for the actions of Effects: what they keep of a state, that they end, and what they return.
use mathlib.Core.Path.{◌≡◌, refl, ap}
use mathlib.Core.Logic.{◌≢◌}
use mathlib.Core.Bool.{Bool, true, false}
use isabelle_repl.Base.Tests.{if◌then◌else◌}
use isabelle_repl.Base.Effects.{
  Outcome, return, raise, out_of_fuel, Action, pure, exhausted, gets, modify, and_then, ◌>>=◌,
}

-- `m` keeps `P`, however it ends.
pub record Keeps {ℓ} {S A : Type ℓ} (P : S → Type ℓ) (m : Action S A) : Type ℓ where
  pub at : (start : S) → P start → P (m start).1

module _ {ℓ} {S A : Type ℓ} {P : S → Type ℓ} where
  pub Keeps-exhausted : Keeps P (exhausted {A = A})
  unfolding exhausted
  Keeps-exhausted = record { at = λ s h. h }

  pub Keeps-if :
      (test : Bool) (then_do else_do : Action S A)
      → (test ≡ true → Keeps P then_do)
      → (test ≡ false → Keeps P else_do)
      → Keeps P (if test then then_do else else_do)
  Keeps-if false then_do else_do on_yes on_no = on_no refl
  Keeps-if true then_do else_do on_yes on_no = on_yes refl

  pub Keeps-pure : (result : A) → Keeps P (pure result)
  unfolding pure
  Keeps-pure result = record { at = λ state kept. kept }

  pub Keeps-gets : (read : S → A) → Keeps P (gets read)
  unfolding gets
  Keeps-gets read = record { at = λ state kept. kept }

module _ {ℓ} {S : Type ℓ} {P : S → Type ℓ} where
  pub Keeps-modify : (f : S → S) → ((s : S) → P s → P (f s)) → Keeps P (modify f)
  unfolding modify
  Keeps-modify f kf = record { at = kf }

module _ {ℓ} {S A B : Type ℓ} {P : S → Type ℓ} where
  Keeps-and_then :
      (r : Outcome A) (f : A → Action S B) → ((a : A) → Keeps P (f a)) → Keeps P (and_then r f)
  Keeps-and_then (return a) f kf = record { at = (kf a).at }
  Keeps-and_then (raise e) f kf = record { at = λ s h. h }
  Keeps-and_then out_of_fuel f kf = record { at = λ s h. h }

  pub Keeps-bind :
      (first : Action S A) (then_do : A → Action S B)
      → Keeps P first
      → ((result : A) → Keeps P (then_do result))
      → Keeps P (first >>= then_do)
  unfolding ◌>>=◌
  Keeps-bind first then_do k_first k_then = record {
    at = λ start h.
        let (r, end) = first start in (Keeps-and_then r then_do k_then).at end (k_first.at start h);
  }

  -- The same from one state, where the first action keeps `P` only there.
  pub bind-at :
      (m : Action S A) (f : A → Action S B) (s : S)
      → P (m s).1
      → ((a : A) → Keeps P (f a))
      → P ((m >>= f) s).1
  unfolding ◌>>=◌
  bind-at m f s h kf = let (r, s') = m s in (Keeps-and_then r f kf).at s' h

module _ {ℓ} {S A B : Type ℓ} (P : S → Type ℓ) where
  and_then-from :
      (r : Outcome A) (f : A → Action S B) (s : S)
      → P s
      → ((a : A) → P (f a s).1)
      → P (and_then r f s).1
  and_then-from (return a) f s h then_keeps = then_keeps a
  and_then-from (raise e) f s h then_keeps = h
  and_then-from out_of_fuel f s h then_keeps = h

  -- As `bind-at`, where what follows keeps `P` only from the state that the first action leaves.
  pub bind-from :
      (m : Action S A) (f : A → Action S B) (s : S)
      → P (m s).1
      → ((a : A) → P (f a (m s).1).1)
      → P ((m >>= f) s).1
  unfolding ◌>>=◌
  bind-from m f s h then_keeps = let (r, s') = m s in and_then-from r f s' h then_keeps

pub ruleset keeps_rules = (Keeps-pure, Keeps-exhausted, Keeps-gets, Keeps-if, Keeps-bind)

-- `m` does not run out of fuel, from any state.
pub record Ends {ℓ} {S A : Type ℓ} (m : Action S A) : Type ℓ where
  pub at : (s : S) → (m s).0 ≢ out_of_fuel

module _ {ℓ} {S A : Type ℓ} where
  pub Ends-pure : (a : A) → Ends {S = S} (pure a)
  unfolding pure
  Ends-pure a = record { at = λ s h. cc }

  pub Ends-gets : (f : S → A) → Ends (gets f)
  unfolding gets
  Ends-gets f = record { at = λ s h. cc }

  pub Ends-if : (b : Bool) (m n : Action S A) → Ends m → Ends n → Ends (if b then m else n)
  Ends-if true m n em en = em
  Ends-if false m n em en = en

module _ {ℓ} {S : Type ℓ} where
  pub Ends-modify : (f : S → S) → Ends (modify f)
  unfolding modify
  Ends-modify f = record { at = λ s h. cc }

module _ {ℓ} {S A B : Type ℓ} where
  Ends-and_then :
      (r : Outcome A) (f : A → Action S B) (s : S)
      → r ≢ out_of_fuel
      → ((a : A) → (f a s).0 ≢ out_of_fuel)
      → (and_then r f s).0 ≢ out_of_fuel
  Ends-and_then (return a) f s er ef = ef a
  Ends-and_then (raise e) f s er ef = λ h. cc
  Ends-and_then out_of_fuel f s er ef = absurd (er refl)

  pub Ends-bind :
      (m : Action S A) (f : A → Action S B) → Ends m → ((a : A) → Ends (f a)) → Ends (m >>= f)
  unfolding ◌>>=◌
  Ends-bind m f em ef = record {
    at = λ s. let (r, s') = m s in Ends-and_then r f s' (em.at s) (λ a. (ef a).at s');
  }

  -- The rest has to end only from the state that the first action leaves.
  pub Ends-bind_at :
      (m : Action S A) (f : A → Action S B) (s : S)
      → (m s).0 ≢ out_of_fuel
      → ((a : A) → (f a (m s).1).0 ≢ out_of_fuel)
      → ((m >>= f) s).0 ≢ out_of_fuel
  unfolding ◌>>=◌
  Ends-bind_at m f s em ef = let (r, s') = m s in Ends-and_then r f s' em ef

pub ruleset ends_rules = (Ends-pure, Ends-gets, Ends-if, Ends-modify, Ends-bind)

-- Whatever `m` returns, from any state, has the property `Q`.
pub record Returns {ℓ} {S A : Type ℓ} (Q : A → Type ℓ) (m : Action S A) : Type ℓ where
  pub at : (s : S) (a : A) → (m s).0 ≡ return a → Q a

abbrev value_or {ℓ} : {A : Type ℓ} → A → Outcome A → A
value_or a (return b) = b
value_or a _ = a

pub return-injective {ℓ} : {A : Type ℓ} (a b : A) → return a ≡ return b → a ≡ b
return-injective a b e = ap (value_or a) e

module _ {ℓ} {S A : Type ℓ} (Q : A → Type ℓ) where
  pub Returns-pure : (a : A) → Q a → Returns {S = S} Q (pure a)
  unfolding pure
  Returns-pure a h = record { at = λ s b e. rw⁻¹ (return-injective a b e) h }

  pub Returns-if :
      (b : Bool) (m n : Action S A)
      → (b ≡ true → Returns Q m)
      → (b ≡ false → Returns Q n)
      → Returns Q (if b then m else n)
  Returns-if true m n hm hn = hm refl
  Returns-if false m n hm hn = hn refl

module _ {ℓ} {S A B : Type ℓ} (Q : B → Type ℓ) where
  Returns-and_then :
      (r : Outcome A) (f : A → Action S B) (s : S) (b : B)
      → ((a : A) → r ≡ return a → (f a s).0 ≡ return b → Q b)
      → (and_then r f s).0 ≡ return b
      → Q b
  Returns-and_then (return a) f s b h e = h a refl e
  Returns-and_then (raise x) f s b h e = cc
  Returns-and_then out_of_fuel f s b h e = cc

  -- The rest may use that the first action returned its argument.
  pub Returns-bind :
      (m : Action S A) (f : A → Action S B)
      → ((a : A) (s : S) → (m s).0 ≡ return a → Returns Q (f a))
      → Returns Q (m >>= f)
  unfolding ◌>>=◌
  Returns-bind m f h = record {
    at = λ s b e.
        let (r, s') = m s in Returns-and_then r f s' b (λ a ea eb. (h a s ea).at s' b eb) e;
  }
