-- ===== src/Common.antt =====
-- The names that every module shares: the libraries' names, passed on, and those of the children,
-- which hold Boolean tests, lists over the native numbers, integers and text.
mod Tests
mod Lists
mod Int
mod Texts
mod Decimal
mod Results
mod Json
pub use Tests.*
pub use Lists.*
unfoldable pub use Int.*
pub use Texts.*
unfoldable pub use Decimal.*
pub use Results.*
unfoldable pub use Json.*
pub use Prim.Native.Nat.{ℕ, zero, suc, ◌+◌, ◌-◌, ◌*◌, ◌/◌, ◌%◌, ◌^◌, ◌≤◌, ◌<◌}
pub use Prim.Native.String.{String}
pub use mathlib.Core.Path.{◌≡◌, refl, sym, ap, subst, ◌∙◌}
pub use mathlib.Core.Logic.{◌≢◌, ◌↔◌, ◌⊎◌, inl, inr}
pub use mathlib.Core.Bool.{Bool, true, false, not, ◌&&◌, ◌||◌}
pub use mathlib.Core.Option.{Option, none, some}
pub use mathlib.Core.List.{List, [], ◌∷◌, ◌++◌, map}
pub use native.Mathlib.Omega.{arith}
