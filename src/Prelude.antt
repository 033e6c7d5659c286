-- ===== src/Prelude.antt =====
-- The names that every component shares: the libraries', passed on, and those of the children.
mod Tests
mod Lists
mod Texts
pub mod Map
pub mod Int
pub mod Decimal
pub mod Result
pub mod Exec
pub mod Trim
pub mod Split
pub use Tests.*
pub use Lists.*
unfoldable pub use Texts.*
pub use Prim.Native.Nat.{ℕ, zero, suc, ◌+◌, ◌-◌, ◌*◌, ◌/◌, ◌%◌, ◌^◌, ◌≤◌, ◌<◌, min, max}
pub use Prim.Native.String.{String}
pub use mathlib.Core.Path.{◌≡◌, refl, sym, ap, subst, ◌∙◌}
pub use mathlib.Core.Logic.{◌≢◌, ◌↔◌, ◌⊎◌, inl, inr}
pub use mathlib.Core.Bool.{Bool, true, false, not, ◌&&◌, ◌||◌}
pub use mathlib.Core.Option.{Option, none, some}
pub use mathlib.Core.List.{List, [], ◌∷◌, ◌++◌, map}
pub use native.Mathlib.Omega.{arith}
