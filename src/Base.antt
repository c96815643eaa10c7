-- ===== src/Base.antt =====
-- Names that the modules share: the libraries', passed on, and those of the children below.
mod Tests
mod Lists
mod Sort
mod Ints
mod Texts
mod Order
mod TextMap
pub use Tests.*
pub use Lists.*
unfoldable pub use Sort.*
pub use Ints.*
unfoldable pub use Texts.*
unfoldable pub use Order.*
pub use TextMap.*
pub use Prim.Native.Nat.{ℕ, zero, suc, ◌+◌, ◌-◌, ◌*◌, ◌/◌, ◌%◌, ◌^◌, ◌≤◌, ◌<◌, Ordering, compare}
pub use mathlib.Core.Path.{◌≡◌, refl, sym, ap, ◌∙◌}
pub use mathlib.Core.Logic.{◌≢◌, ◌↔◌, ◌⊎◌, inl, inr}
pub use mathlib.Core.Bool.{Bool, true, false, ◌&&◌, ◌||◌, not}
pub use mathlib.Core.Option.{Option, none, some}
pub use mathlib.Core.List.{List, [], ◌∷◌, ◌++◌, map}
pub use native.Mathlib.Omega.{arith}
