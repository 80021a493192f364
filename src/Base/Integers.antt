-- ===== src/Base/Integers.antt =====
-- Python integers where the source lets them be negative: source lines, proof levels, the cursor.
use Prim.Native.Nat.{ℕ, suc, ◌≤◌}
use mathlib.Core.Bool.{Bool, true, false}
use native.Mathlib.Decide.{ℕ_discrete}
use native.Mathlib.Omega.{arith}
use isabelle_repl.Base.Equality.{Eq}
use isabelle_repl.Base.Tests.{ltb, if◌then◌else◌}

-- `negsuc n` is -(n + 1).
pub data ℤ : Type 0 where
  pos : ℕ → ℤ
  negsuc : ℕ → ℤ

ℤ-discrete : Discrete ℤ
ℤ-discrete = hlevel ℕ_discrete

instance unfoldable pub int_eq : Eq ℤ
unfolding ℤ-discrete ℕ_discrete
int_eq = record { dec = ℤ-discrete }

abbrev pub ltb_ℤ : ℤ → ℤ → Bool
ltb_ℤ (pos a) (pos b) = ltb a b
ltb_ℤ (pos a) (negsuc b) = false
ltb_ℤ (negsuc a) (pos b) = true
ltb_ℤ (negsuc a) (negsuc b) = ltb b a

-- `max(a, b)`
abbrev pub max_ℤ : ℤ → ℤ → ℤ
max_ℤ a b = if ltb_ℤ a b then b else a

-- `a + 1`, as a position in a list. The cursor starts at -1, and nothing below -1 occurs.
abbrev pub after : ℤ → ℕ
after (pos n) = suc n
after (negsuc n) = 0

pub after_max : (a b : ℤ) → (after a ≤ after (max_ℤ a b)) × (after b ≤ after (max_ℤ a b))
after_max (pos a) (pos b) = ground arith
after_max (pos a) (negsuc b) = ground arith
after_max (negsuc a) (pos b) = ground arith
after_max (negsuc a) (negsuc b) = ground arith
