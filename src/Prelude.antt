-- ===== src/Prelude.antt =====
-- The names that every module shares: those of the libraries, passed on, and the children's.
mod Tests
mod Lists
mod Result
pub mod Map
pub mod Strings
pub use Tests.{
  max_safe_integer, ltb, leb, ◌==◌, if◌then◌else◌, is_some, is_none, ltb→lt, leb→le, ==_iff,
  Bool-cases, Option-cases,
}
unfoldable pub use Tests.{utf16_length}
pub use Lists.{
  length, take, any, all, last, length-append, length-take, last-append, all-filter,
  all-filter_self, all-insert_sorted, all-sort_by, all-take, length-map, all-append, Among, first,
  first-sort_by, first-Among, first_missing,
}
unfoldable pub use Lists.{insert_sorted, sort_by, filter}
pub use Result.{
  Throws, ok, err, ◌>>=◌, ◌>>◌, assert_runtime, Result-cases, ok-injective, is_error, >>=-ok, >>-ok,
}
pub use Prim.Native.Nat.{ℕ, zero, suc, ◌+◌, ◌-◌, ◌*◌, ◌/◌, ◌%◌, ◌^◌, ◌≤◌, ◌<◌, min}
pub use Prim.Native.String.{String}
pub use mathlib.Core.Path.{◌≡◌, refl, sym, ap, ◌∙◌, subst}
pub use mathlib.Core.Logic.{◌≢◌, ◌↔◌, ◌⊎◌, inl, inr}
pub use mathlib.Core.Bool.{Bool, true, false, ◌&&◌, ◌||◌, not}
pub use mathlib.Core.Option.{Option, none, some}
pub use mathlib.Core.List.{List, [], ◌∷◌, ◌++◌, map}
pub use native.Mathlib.Omega.{arith}
pub use text.Mathlib.Text.{◌==◌ as str_eq}
pub use text.Mathlib.TextEquality.{eq_iff}
