-- ===== src/Base.antt =====
-- The names that the modules share: the libraries', passed on, with those of the children.
-- `Tests` has Boolean tests, `Lists` arrays, `Int` the signed integers, `Bits` the laws of the
-- bitwise operators and `Words` the 32-bit arithmetic of the C++ types u32 and i32.
pub mod Tests
pub mod Lists
pub mod Int
pub mod Ring
pub mod Bits
pub mod Words
pub use Tests.*
pub use Lists.*
pub use Prim.Native.Nat.{
  ℕ, zero, suc, ◌+◌, ◌-◌, ◌*◌, ◌/◌, ◌%◌, ◌^◌, ◌≤◌, ◌<◌, min, bit_and, bit_or, bit_xor,
}
pub use mathlib.Core.Path.{◌≡◌, refl, sym, ap, ap₂, ◌∙◌}
pub use mathlib.Core.Logic.{◌≢◌, ◌↔◌, ◌⊎◌, inl, inr}
pub use mathlib.Core.Bool.{Bool, true, false, not, ◌&&◌, ◌||◌}
pub use mathlib.Core.Option.{Option, none, some}
pub use mathlib.Core.List.{List, [], ◌∷◌, ◌++◌, map}
pub use native.Mathlib.Omega.{arith}
