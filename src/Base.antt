-- ===== src/Base.antt =====
-- What the modules share: the library's names passed on, Boolean tests, texts, outcomes.
mod Tests
mod Texts
mod Outcomes
mod Lists
mod Decimal
pub mod Order
pub mod StdMap
pub mod Regex
pub mod TextLaws
pub mod Bag
pub use Prim.Native.Nat.{ℕ, zero, suc, ◌+◌, ◌-◌, ◌*◌, ◌/◌, ◌%◌, ◌^◌, ◌≤◌, ◌<◌}
pub use mathlib.Core.Path.{◌≡◌, refl, sym, ap, ◌∙◌, subst}
pub use mathlib.Core.Logic.{◌≢◌, ◌↔◌, ◌⊎◌, inl, inr}
pub use mathlib.Core.Bool.{Bool, true, false, not, ◌&&◌, ◌||◌}
pub use mathlib.Core.Option.{Option, none, some}
pub use mathlib.Core.List.{List, [], ◌∷◌, ◌++◌, map, append_assoc, append-nil}
pub use native.Mathlib.Omega.{arith}
unfoldable pub use Tests.*
unfoldable pub use Texts.*
unfoldable pub use Outcomes.*
unfoldable pub use Lists.*
unfoldable pub use Decimal.*
