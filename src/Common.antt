-- ===== src/Common.antt =====
-- Names shared by all modules: the libraries', passed on, and those of the children.
mod Tests
mod Lists
mod Strings
pub mod Int
pub mod Bits
pub mod Masks
pub use Tests.*
pub use Lists.*
pub use Strings.*
unfoldable pub use Strings.{str_eq, starts_with}
pub use Prim.Native.Nat.{ℕ, zero, suc, ◌+◌, ◌-◌, ◌*◌, ◌/◌, ◌%◌, ◌^◌, ◌≤◌, ◌<◌, bit_xor}
pub use mathlib.Core.Path.{◌≡◌, refl, sym, ap, subst, ◌∙◌}
pub use mathlib.Core.Logic.{◌≢◌, ◌↔◌, ◌⊎◌, inl, inr}
pub use mathlib.Core.Bool.{Bool, true, false, ◌&&◌, ◌||◌, not}
pub use mathlib.Core.Option.{Option, none, some}
pub use mathlib.Core.List.{List, [], ◌∷◌, ◌++◌, map, reverse}
pub use native.Mathlib.Omega.{arith}
