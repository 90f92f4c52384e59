-- ===== src/Base.antt =====
-- The names that the other modules share: the libraries', passed on, and those of the children.
mod Tests
mod Lists
mod Strings
mod Transactions
mod Tables
mod Keys
mod Sorting
pub mod Int
pub use Tests.*
pub use Lists.*
pub use Transactions.*
pub use Tables.*
pub use Keys.*
pub use Sorting.*
pub use Strings.{Text, codes, text_eq_refl, text_eq_sound, text_eq_iff, text_in, is_empty, remove}
unfoldable pub use Strings.{
  text_eq, text_le, starts_with, before, split_words, strip_left, strip_right, strip, join_words,
}
pub use Prim.Native.Nat.{ℕ, zero, suc, ◌+◌, ◌-◌, ◌*◌, ◌/◌, ◌%◌, ◌^◌, ◌≤◌, ◌<◌}
pub use Prim.Native.String.{String}
pub use mathlib.Core.Path.{◌≡◌, refl, sym, ap, ◌∙◌, subst}
pub use mathlib.Core.Logic.{◌≢◌, ◌↔◌, ◌⊎◌, inl, inr}
pub use mathlib.Core.Bool.{Bool, true, false, not, ◌&&◌, ◌||◌}
pub use mathlib.Core.Option.{Option, none, some}
pub use mathlib.Core.List.{List, [], ◌∷◌, ◌++◌, map}
pub use native.Mathlib.Omega.{arith}
