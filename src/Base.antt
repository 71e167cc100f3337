-- ===== src/Base.antt =====
-- What the other modules share: names of the libraries, Boolean tests, texts, errors and effects.
mod Tests
pub mod Lists
pub mod Strings
pub mod Search
pub mod Failures
pub mod Effects
pub mod Clock
pub mod Int64
pub use Tests.*
pub use Prim.Native.Nat.{ℕ, zero, suc, ◌+◌, ◌-◌, ◌*◌, ◌/◌, ◌%◌, ◌≤◌, ◌<◌}
pub use mathlib.Core.Path.{◌≡◌, refl, sym, ap, ◌∙◌}
pub use mathlib.Core.Logic.{◌≢◌, ◌↔◌, ◌⊎◌, inl, inr}
pub use mathlib.Core.Bool.{Bool, true, false, not, ◌&&◌, ◌||◌}
pub use mathlib.Core.Option.{Option, none, some}
pub use mathlib.Core.List.{List, [], ◌∷◌, ◌++◌, map, append_assoc, append-nil}
pub use native.Mathlib.Omega.{arith}
unfoldable pub use Strings.{
  Text, codes, ◌==◌, is_space, trim_left, trim_right, trim, trim_space, join, cut, fold, equal_fold,
  first_non_empty,
}
pub use Strings.{Any, str, opaque}
pub use Strings.Laws.{eq_sound, eq_refl, eq_iff, unequal, trim-eq-nil}
unfoldable pub use Lists.{length, keep, any, All, concat}
pub use Lists.{length-append, All-append, IsNil, concat-IsNil}
pub use Failures.{Sentinel, Error, sentinel, plain, wrapped, joined, Errors, only, also, index}
unfoldable pub use Failures.{message, is, text_of}
pub use Failures.{join as join_errors}
pub use Effects.*
