-- ===== src/Base.antt =====
-- What the parts share: the libraries' names passed on, Boolean tests, C words, byte buffers.
mod Tests
mod Words
mod Buffers
mod Fields
mod Lists
mod Tables
mod Ints
mod Texts
pub use Tests.*
pub use Words.*
unfoldable pub use Buffers.*
unfoldable pub use Fields.*
pub use Lists.*
unfoldable pub use Tables.*
pub use Ints.*
unfoldable pub use Texts.*
pub use Prim.Native.Nat.{
  ℕ, zero, suc, ◌+◌, ◌-◌, ◌*◌, ◌/◌, ◌%◌, ◌^◌, ◌≤◌, ◌<◌, bit_and, bit_or, bit_xor,
}
pub use mathlib.Core.Path.{◌≡◌, refl, sym, ap, ◌∙◌, fun_ext}
pub use mathlib.Core.Logic.{◌≢◌, ◌↔◌, ◌⊎◌, inl, inr}
pub use mathlib.Core.Bool.{Bool, true, false, ◌&&◌, ◌||◌, not}
pub use mathlib.Core.Option.{Option, none, some}
pub use mathlib.Core.List.{List, [], ◌∷◌, ◌++◌, map}
pub use native.Mathlib.Omega.{arith}
