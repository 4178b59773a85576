-- ===== src/Prelude.antt =====
-- The names that the other modules share: the libraries', passed on, and those of the children.
-- `Errors` models Go's error values, `Maps` a Go map, `Int` a Go int, `Clock` an instant of time, `Builder` the
-- builders of the domain packages, `Texts` Go's `strings`, `Emails` the test of an email address,
-- and `DayTimes` the time of a day.
mod Tests
mod Lists
mod Maps
mod Int
mod Errors
mod Clock
mod Builder
mod Texts
mod Emails
mod DayTimes
pub use Tests.*
pub use Lists.*
unfoldable pub use Maps.*
unfoldable pub use Int.*
pub use Errors.*
pub use Clock.*
pub use Texts.*
unfoldable pub use Emails.*
unfoldable pub use DayTimes.*
unfoldable pub use Builder.*
pub use Prim.Native.Nat.{ℕ, zero, suc, ◌+◌, ◌-◌, ◌*◌, ◌/◌, ◌%◌, ◌^◌, ◌≤◌, ◌<◌}
pub use Prim.Native.String.{String}
pub use mathlib.Core.Path.{◌≡◌, refl, sym, ap, ◌∙◌, subst, fun_ext}
pub use mathlib.Core.Logic.{◌≢◌, ◌↔◌, ◌⊎◌, inl, inr}
pub use mathlib.Core.Bool.{Bool, true, false, not, ◌&&◌, ◌||◌}
pub use mathlib.Core.Option.{Option, none, some}
pub use mathlib.Core.List.{List, [], ◌∷◌, ◌++◌, map}
pub use native.Mathlib.Omega.{arith}
unfoldable pub use native.Mathlib.Decide.{dec_lt, dec_le}
