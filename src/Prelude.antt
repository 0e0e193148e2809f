-- ===== src/Prelude.antt =====
-- The names that the other modules share: the libraries', passed on, and those of the children.
mod Tests
mod Lists
mod Results
pub mod Strings
pub mod Sorting
pub mod Utf8
pub mod Int
pub mod Decimal
pub use Tests.*
pub use Lists.*
pub use Results.*
unfoldable pub use Strings.{Text, text, lower, text_eq}
pub use Strings.{text_eq_iff, text_eq_refl, lower_idem}
pub use Int.{ℤ, pos, negsuc}
unfoldable pub use Decimal.{decimal, parse_decimal}
pub use Prim.Native.Nat.{ℕ, zero, suc, ◌+◌, ◌-◌, ◌*◌, ◌/◌, ◌%◌, ◌^◌, ◌≤◌, ◌<◌}
pub use mathlib.Core.Path.{◌≡◌, refl, sym, ap, ◌∙◌}
pub use mathlib.Core.Logic.{◌≢◌, ◌↔◌, ◌⊎◌, inl, inr}
pub use mathlib.Core.Bool.{Bool, true, false, not, ◌&&◌, ◌||◌}
pub use mathlib.Core.Option.{Option, none, some}
pub use mathlib.Core.List.{List, [], ◌∷◌, ◌++◌, map}
pub use native.Mathlib.Omega.{arith}
