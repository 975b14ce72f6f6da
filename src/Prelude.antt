-- ===== src/Prelude.antt =====
-- The names that the other modules share: the libraries', passed on, and those of the children.
mod Tests
mod Lists
mod Classes
mod Errors
pub mod Dict
mod Order
mod Text
mod Parse
mod Sort
mod Words
mod Slices
mod Signing
mod Digits
mod Bits
unfoldable pub use Order.*
unfoldable pub use Text.*
unfoldable pub use Sort.*
unfoldable pub use Words.*
unfoldable pub use Slices.*
pub use Signing.*
pub use Digits.*
pub use Bits.*
unfoldable pub use Parse.*
unfoldable pub use Tests.*
unfoldable pub use Lists.*
unfoldable pub use Classes.*
unfoldable pub use Errors.*
pub use Prim.Native.Nat.{
  compare, Ordering, ℕ, zero, suc, ◌+◌, ◌-◌, ◌*◌, ◌/◌, ◌%◌, ◌^◌, ◌≤◌, ◌<◌, min, bit_and, bit_or,
  bit_xor,
}
pub use Prim.Native.String.{String}
pub use mathlib.Core.Path.{◌≡◌, refl, sym, ap, ap₂, ◌∙◌, subst, subst₂}
pub use mathlib.Core.Logic.{◌≢◌, ◌↔◌, ◌⊎◌, inl, inr}
pub use mathlib.Core.Bool.{Bool, true, false, not, ◌&&◌, ◌||◌}
pub use mathlib.Core.Option.{Option, none, some}
pub use mathlib.Core.List.{Permᴰ, List, [], ◌∷◌, ◌++◌, map, append_assoc, append-nil}
pub use native.Mathlib.Omega.{arith}
unfoldable pub use native.Mathlib.Decide.{dec_lt, dec_le, ℕ_discrete}
