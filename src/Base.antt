-- ===== src/Base.antt =====
-- Shared names: numbers with Boolean tests, lists, runs of C code on an explicit state, and loops.
pub mod Bits
pub mod Chain
pub mod Int
pub mod Lists
pub mod Run
pub mod Xor
mod Tests
pub use Tests.*
pub use Lists.{length, length-append, IsFresh, IsDistinct}
pub use Prim.Native.Nat.{ℕ, zero, suc, ◌+◌, ◌-◌, ◌*◌, ◌/◌, ◌%◌, ◌^◌, ◌≤◌, ◌<◌}
pub use mathlib.Core.Path.{◌≡◌, refl, sym, ap, subst, ◌∙◌}
pub use mathlib.Core.Logic.{◌≢◌, ◌⊎◌, inl, inr}
pub use mathlib.Core.Bool.{Bool, true, false, not, ◌&&◌, ◌||◌}
pub use mathlib.Core.Option.{Option, none, some}
pub use mathlib.Core.List.{List, [], ◌∷◌, ◌++◌}
pub use native.Mathlib.Omega.{arith}
