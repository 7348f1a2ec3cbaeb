-- ===== src/Prelude.antt =====
-- Names, tests, lists and bytes that the models of the program share.
mod Tests
mod Lists
mod Digits
mod Xor
mod Fields
mod Throw
mod Equal
mod Maps
mod Decimal
mod ByteArray
pub use Tests.*
pub use Lists.*
pub use Xor.*
pub use Fields.*
pub use Throw.*
pub use Equal.*
unfoldable pub use Maps.*
unfoldable pub use Decimal.*
pub use ByteArray.*
pub use Prim.Native.Nat.{
  ℕ, zero, suc, ◌+◌, ◌-◌, ◌*◌, ◌/◌, ◌%◌, ◌^◌, ◌≤◌, ◌<◌, min, max, bit_and, bit_or, bit_xor,
}
pub use mathlib.Core.Path.{◌≡◌, refl, sym, ap, ap₂, ◌∙◌, subst, fun_ext}
pub use mathlib.Core.Logic.{◌≢◌, ◌↔◌, ◌⊎◌, inl, inr}
pub use mathlib.Core.Bool.{Bool, true, false, ◌&&◌, ◌||◌, not}
pub use mathlib.Core.Option.{Option, none, some}
pub use mathlib.Core.List.{List, [], ◌∷◌, ◌++◌, map, append-nil, append_assoc}
pub use native.Mathlib.Omega.{arith}
