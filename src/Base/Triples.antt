-- ===== src/Base/Triples.antt =====
-- Actions with what holds before and after them, read through a view of the state.
use mathlib.Core.Path.{◌≡◌, refl, sym, subst}
use mathlib.Core.Bool.{Bool, true, false}
use isabelle_repl.Base.Tests.{if◌then◌else◌}
use isabelle_repl.Base.Effects.{
  Outcome, return, raise, out_of_fuel, Action, pure, exhausted, gets, modify, and_then, ◌>>=◌,
}
use isabelle_repl.Base.Invariants.{Keeps, return-injective}

module _ {ℓ} {S V : Type ℓ} (view : S → V) where
  -- `m` leaves the view of the state as it is.
  abbrev pub Steady : {A : Type ℓ} → Action S A → Type ℓ
  Steady m = (v : V) → Keeps (λ s. view s ≡ v) m

  -- From a state where `C` and `P` hold, `C` holds after `m` however it ends, and `R` holds of what it
  -- returns and the state then.
  pub record Runs {A : Type ℓ} (C P : V → Type ℓ) (R : A → V → Type ℓ) (m : Action S A)
      : Type ℓ where
    pub at :
        (s : S)
        → C (view s)
        → P (view s)
        → C (view (m s).1) × ((a : A) → (m s).0 ≡ return a → R a (view (m s).1))

module _ {ℓ} {S V A B : Type ℓ} where
  Runs-and_then :
      (view : S → V) (C : V → Type ℓ) (R : B → V → Type ℓ) (r : Outcome A) (f : A → Action S B)
      (s : S)
      → C (view s)
      → ((a : A)
          → r ≡ return a
          → C (view (f a s).1) × ((b : B) → (f a s).0 ≡ return b → R b (view (f a s).1)))
      → C (view (and_then r f s).1)
        × ((b : B) → (and_then r f s).0 ≡ return b → R b (view (and_then r f s).1))
  Runs-and_then view C R (return a) f s c h = h a refl
  Runs-and_then view C R (raise e) f s c h = (c, λ b x. cc)
  Runs-and_then view C R out_of_fuel f s c h = (c, λ b x. cc)

module _ {ℓ} {S V : Type ℓ} {view : S → V} {C : V → Type ℓ} where
  module _ {A : Type ℓ} where
    pub Runs-exhausted : (P : V → Type ℓ) (R : A → V → Type ℓ) → Runs view C P R (exhausted {A = A})
    unfolding exhausted
    Runs-exhausted P R = record { at = λ s c p. (c, λ a e. cc) }

    pub Runs-pure :
        {P : V → Type ℓ} {R : A → V → Type ℓ} (a : A)
        → ((v : V) → C v → P v → R a v)
        → Runs view C P R (pure a)
    unfolding pure
    Runs-pure {R} a h = record {
      at = λ s c p. (c, λ b e. subst (λ x. R x (view s)) (return-injective a b e) (h (view s) c p));
    }

    pub Runs-if :
        {P : V → Type ℓ} {R : A → V → Type ℓ} (test : Bool) {m n : Action S A}
        → (test ≡ true → Runs view C P R m)
        → (test ≡ false → Runs view C P R n)
        → Runs view C P R (if test then m else n)
    Runs-if true hm hn = hm refl
    Runs-if false hm hn = hn refl

    -- A stronger condition before, a weaker one after.
    pub Runs-weaken :
        {P P' : V → Type ℓ} {R R' : A → V → Type ℓ} {m : Action S A}
        → Runs view C P R m
        → ((v : V) → C v → P' v → P v)
        → ((a : A) (v : V) → C v → R a v → R' a v)
        → Runs view C P' R' m
    Runs-weaken run before after = record {
      at = λ s c p'.
          let (c', r) = run.at s c (before (view s) c p') in (c', λ a e. after a _ c' (r a e));
    }

    -- A condition that does not read the state is a hypothesis.
    pub Runs-fact :
        {Fact : Type ℓ} {P : V → Type ℓ} {R : A → V → Type ℓ} {m : Action S A}
        → (Fact → Runs view C P R m)
        → Runs view C (λ v. Fact × P v) R m
    Runs-fact run = record { at = λ s c p. (run p.0).at s c p.1 }

    -- A steady action keeps whatever the view satisfies.
    pub Runs-Steady : {P : V → Type ℓ} {m : Action S A} → Steady view m → Runs view C P (λ _. P) m
    Runs-Steady {P} steady = record {
      at = λ s c p.
          let same = sym ((steady (view s)).at s refl) in (subst C same c, λ a e. subst P same p);
    }

  pub Runs-modify :
      {P : V → Type ℓ} {R : Unit → V → Type ℓ} (f : S → S)
      → ((s : S) → C (view s) → P (view s) → C (view (f s)) × R tt (view (f s)))
      → Runs view C P R (modify f)
  unfolding modify
  Runs-modify {R} f h = record { at = λ s c p. let (c', r) = h s c p in (c', λ a e. r) }

  module _ {A B : Type ℓ} where
    pub Runs-bind :
        {P : V → Type ℓ} {Q : A → V → Type ℓ} {R : B → V → Type ℓ} {m : Action S A}
        {f : A → Action S B}
        → Runs view C P Q m
        → ((a : A) → Runs view C (Q a) R (f a))
        → Runs view C P R (m >>= f)
    unfolding ◌>>=◌
    Runs-bind {R} {m} {f} first then_do = record {
      at = λ s c p.
          let (c', q) = first.at s c p in
          Runs-and_then view C R (m s).0 f (m s).1 c' (λ a e. (then_do a).at (m s).1 c' (q a e));
    }

    -- After a steady action the condition still holds.
    pub Runs-after :
        {P : V → Type ℓ} {R : B → V → Type ℓ} {m : Action S A} {f : A → Action S B}
        → Steady view m
        → ((a : A) → Runs view C P R (f a))
        → Runs view C P R (m >>= f)
    Runs-after {P} steady then_do = Runs-bind (Runs-Steady {P = P} steady) then_do

    -- What is read of the view is known to the rest.
    pub Runs-read :
        {P : V → Type ℓ} {R : B → V → Type ℓ} (read : V → A) {f : A → Action S B}
        → ((a : A) → Runs view C (λ v. P v × (read v ≡ a)) R (f a))
        → Runs view C P R (gets (λ s. read (view s)) >>= f)
    unfolding ◌>>=◌ gets
    Runs-read read rest = record { at = λ s c p. (rest (read (view s))).at s c (p, refl) }

  module _ {B : Type ℓ} where
    -- After the whole state is read, the rest knows what the view of it is.
    pub Runs-state :
        {P : V → Type ℓ} {R : B → V → Type ℓ} {f : S → Action S B}
        → ((s : S) → Runs view C (λ v. P v × (view s ≡ v)) R (f s))
        → Runs view C P R (gets (λ s. s) >>= f)
    unfolding ◌>>=◌ gets
    Runs-state rest = record { at = λ s c p. (rest s).at s c (p, refl) }
