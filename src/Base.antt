-- ===== src/Base.antt =====
-- The names that every other module shares: the libraries', passed on, and those of the children.
-- A byte, a u16, a u32 and a usize are native numbers; a slice of bytes is a list of them.
mod Tests
mod Lists
mod Slices
mod Monad
pub mod Hoare
pub mod Quiet
pub mod Words
pub mod Bits
pub mod Shift
unfoldable pub use Tests.*
unfoldable pub use Lists.*
pub use Slices.*
unfoldable pub use Monad.*
pub use Prim.Native.Nat.{
  ℕ, zero, suc, ◌+◌, ◌-◌, ◌*◌, ◌/◌, ◌%◌, ◌^◌, ◌≤◌, ◌<◌, min, max, bit_and, bit_or, bit_xor,
}
pub use mathlib.Core.Path.{◌≡◌, refl, sym, ap, subst, ◌∙◌}
pub use mathlib.Core.Logic.{◌≢◌, ◌↔◌, ◌⊎◌, inl, inr}
pub use mathlib.Core.Bool.{Bool, true, false, ◌&&◌, ◌||◌, not, xor}
pub use mathlib.Core.Option.{Option, none, some}
pub use mathlib.Core.List.{List, [], ◌∷◌, ◌++◌, map}
pub use native.Mathlib.Omega.{arith}
