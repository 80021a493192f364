-- ===== src/Base.antt =====
-- The names that the modules share: the libraries', passed on, and those of the children below.
mod Equality
mod Tests
mod Lists
mod Integers
mod Text
mod Dict
mod Effects
mod Invariants
mod Triples
unfoldable pub use Equality.*
pub use Tests.*
pub use Lists.*
unfoldable pub use Integers.*
unfoldable pub use Text.*
unfoldable pub use Dict.*
unfoldable pub use Effects.*
pub use Invariants.*
pub use Triples.*
pub use Prim.Native.Nat.{ℕ, zero, suc, ◌+◌, ◌-◌, ◌≤◌, ◌<◌}
pub use Prim.Native.String.{String, ◌++◌ as ◌<>◌}
pub use mathlib.Core.Path.{◌≡◌, refl, sym, ap, ◌∙◌, subst}
pub use mathlib.Core.Logic.{◌≢◌, ◌↔◌, ◌⊎◌, inl, inr}
pub use mathlib.Core.Bool.{Bool, true, false, not, ◌&&◌, ◌||◌}
pub use mathlib.Core.Option.{Option, none, some}
pub use mathlib.Core.List.{List, [], ◌∷◌, ◌++◌, map}
pub use native.Mathlib.Omega.{arith}
