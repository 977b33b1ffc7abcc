-- ===== src/Base.antt =====
-- The names that the other modules share: the libraries' names, passed on, and those of the
-- children: tests on numbers, lists, results of fallible code, and text as code points.
mod Tests
mod Lists
mod Results
mod Strings
pub use Tests.*
pub use Lists.*
pub use Results.*
unfoldable pub use Strings.{is_space, lstrip, rstrip, strip}
pub use Strings.*
pub use Prim.Native.Nat.{ℕ, zero, suc, ◌+◌, ◌-◌, ◌*◌, ◌/◌, ◌%◌, ◌^◌, ◌≤◌, ◌<◌}
pub use mathlib.Core.Path.{◌≡◌, refl, sym, subst, ap, ◌∙◌}
pub use mathlib.Core.Logic.{◌≢◌, ◌↔◌, ◌⊎◌, inl, inr}
pub use mathlib.Core.Bool.{Bool, true, false, ◌&&◌, ◌||◌, not}
pub use mathlib.Core.Option.{Option, none, some}
pub use mathlib.Core.List.{List, [], ◌∷◌, ◌++◌, map, reverse}
pub use native.Mathlib.Omega.{arith}
