-- ===== src/Base.antt =====
-- The names that the other modules share: those of the libraries, passed on, and those of the
-- children below, which hold the Boolean tests, arrays as lists, and machine words, and the
-- faults of the code.
mod Tests
mod Arrays
mod Words
mod Faults
pub use Tests.*
pub use Arrays.*
pub use Words.*
pub use Faults.*
pub use Prim.Native.Nat.{ℕ, zero, suc, ◌+◌, ◌-◌, ◌*◌, ◌/◌, ◌%◌, ◌^◌, ◌≤◌, ◌<◌, bit_and, bit_or}
pub use mathlib.Core.Path.{◌≡◌, refl, sym, ap, subst, fun_ext, ◌∙◌}
pub use mathlib.Core.Logic.{◌≢◌, ◌↔◌, ◌⊎◌, inl, inr}
pub use mathlib.Core.Bool.{Bool, true, false, not, ◌&&◌, ◌||◌}
pub use mathlib.Core.Option.{Option, none, some}
pub use mathlib.Core.List.{List, [], ◌∷◌, ◌++◌, map}
pub use native.Mathlib.Omega.{arith}
