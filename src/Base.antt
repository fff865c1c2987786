-- ===== src/Base.antt =====
-- The names that the components share: the libraries' names passed on, and those of the children:
-- tests, lists, tables of rows, and the values and errors of the Python runtime.
mod Tests
mod Lists
mod Table
mod Int
mod Values
mod Outcomes
mod Texts
mod Numbers
mod Integers
pub mod Maps
pub use Tests.*
unfoldable pub use Lists.*
pub use Int.*
unfoldable pub use Table.*
unfoldable pub use Values.*
pub use Outcomes.*
unfoldable pub use Texts.*
unfoldable pub use Numbers.*
unfoldable pub use Integers.*
pub use Prim.Native.Nat.{ℕ, zero, suc, ◌+◌, ◌-◌, ◌*◌, ◌/◌, ◌%◌, ◌≤◌, ◌<◌, max}
pub use Prim.Native.String.{String}
pub use mathlib.Core.Path.{◌≡◌, refl, sym, ap, subst, ◌∙◌}
pub use mathlib.Core.Logic.{◌≢◌, ◌↔◌, ◌⊎◌, inl, inr}
pub use mathlib.Core.Bool.{Bool, true, false, not, ◌&&◌, ◌||◌}
pub use mathlib.Core.Option.{Option, none, some}
pub use mathlib.Core.List.{List, [], ◌∷◌, ◌++◌, map}
pub use native.Mathlib.Omega.{arith}
pub use text.Mathlib.Text.{◌==◌}
pub use text.Mathlib.TextEquality.{eq_iff}
pub use text.Mathlib.TextPositions.{eq_refl}
