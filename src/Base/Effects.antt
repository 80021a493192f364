-- ===== src/Base/Effects.antt =====
-- Methods that change an object and may raise. What was written before a raise stays written, so
-- the object comes back beside the exception too.
use Prim.Native.String.{String}

pub data Exception : Type 0 where
  value_error : String → Exception
  runtime_error : String → Exception
  -- an exception of code that is not modelled, such as a failed remote call
  foreign_error : String → Exception

-- What a call gives: a value, an exception, or the end of the fuel of the model.
pub data Outcome {ℓ} (A : Type ℓ) : Type ℓ where
  return : A → Outcome A
  raise : Exception → Outcome A
  out_of_fuel : Outcome A

abbrev pub Action {ℓ} : Type ℓ → Type ℓ → Type ℓ
Action S A = S → Outcome A × S

module _ {ℓ} {S A : Type ℓ} where
  unfoldable pub pure : A → Action S A
  pure a s = (return a, s)

  unfoldable pub throw : Exception → Action S A
  throw e s = (raise e, s)

  unfoldable pub exhausted : Action S A
  exhausted s = (out_of_fuel, s)

  unfoldable pub gets : (S → A) → Action S A
  gets f s = (return (f s), s)

module _ {ℓ} {S : Type ℓ} where
  unfoldable pub modify : (S → S) → Action S Unit
  modify f s = (return tt, f s)

module _ {ℓ} {S A B : Type ℓ} where
  abbrev pub and_then : Outcome A → (A → Action S B) → Action S B
  and_then (return a) f s = f a s
  and_then (raise e) f s = (raise e, s)
  and_then out_of_fuel f s = (out_of_fuel, s)

  infixl 10 ◌>>=◌ ◌>>◌
  -- opening this opens the actions above too
  unfoldable pub ◌>>=◌ : Action S A → (A → Action S B) → Action S B
  unfolding pure throw exhausted gets modify
  ◌>>=◌ m f s = let (r, s') = m s in and_then r f s'

  abbrev pub ◌>>◌ : Action S A → Action S B → Action S B
  m >> n = m >>= λ _. n

-- What a call of a part behind an interface gives: its value, or the exception that it raised.
pub data Attempt {ℓ} (A : Type ℓ) : Type ℓ where
  returned : A → Attempt A
  raised : Exception → Attempt A

abbrev pub settle {ℓ} : {A : Type ℓ} → Attempt A → Outcome A
settle (returned a) = return a
settle (raised e) = raise e

-- A call of a part that changes only the world `S`.
unfoldable pub send {ℓ} : {S A : Type ℓ} → (S → Attempt A × S) → Action S A
send f s = let (r, s') = f s in (settle r, s')

-- `try: return m; except Exception: return a`
abbrev pub recovered {ℓ} : {A : Type ℓ} → A → Outcome A → Outcome A
recovered a (return b) = return b
recovered a (raise e) = return a
recovered a out_of_fuel = out_of_fuel

unfoldable pub catch {ℓ} : {S A : Type ℓ} → A → Action S A → Action S A
catch a m s = let (r, s') = m s in (recovered a r, s')

-- `try: return m; finally: cleanup`
abbrev pub after_cleanup {ℓ} : {A : Type ℓ} → Outcome A → Outcome (Unit {ℓ}) → Outcome A
after_cleanup r (return u) = r
after_cleanup r (raise e) = raise e
after_cleanup r out_of_fuel = out_of_fuel

unfoldable pub finally {ℓ} : {S A : Type ℓ} → Action S A → Action S (Unit {ℓ}) → Action S A
finally m cleanup s = let (r, s') = m s in let (c, s'') = cleanup s' in (after_cleanup r c, s'')
