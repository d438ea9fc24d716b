-- ===== src/Prelude.antt =====
-- The names that every component shares: the libraries' own, passed on, and the children's.
mod Tests
mod Lists
mod Texts
mod Utf8
mod Decimal
mod Keys
mod Members
mod Lookup
mod Strings
mod Results
mod Slices
pub mod Maps
pub use Tests.*
pub use Lists.*
unfoldable pub use Texts.{text_eq}
unfoldable pub use Utf8.{is_utf8}
unfoldable pub use Decimal.{decimal}
pub use Texts.*
unfoldable pub use Keys.{is_prefix}
pub use Keys.*
pub use Members.*
pub use Lookup.*
unfoldable pub use Strings.{ends_with, lines, join}
pub use Results.*
unfoldable pub use Slices.{
  text_find, text_rfind, text_contains, strip_prefix, chars, take_chars, is_space, trim_matches,
  trim, trim_start, split_whitespace, split_at_byte, rsplit_once,
}
pub use Slices.*
pub use Slices.Find.*
pub use Slices.Trim.*
pub use Prim.Native.Nat.{ℕ, zero, suc, ◌+◌, ◌-◌, ◌*◌, ◌%◌, ◌^◌, ◌≤◌, ◌<◌}
pub use Prim.Native.String.{String}
pub use mathlib.Core.Path.{◌≡◌, refl, sym, ap, ◌∙◌, subst}
pub use mathlib.Core.Logic.{◌≢◌, ◌↔◌, ◌⊎◌, inl, inr}
pub use mathlib.Core.Bool.{Bool, true, false, not, ◌&&◌, ◌||◌}
pub use mathlib.Core.Option.{Option, none, some}
pub use mathlib.Core.List.{List, [], ◌∷◌, ◌++◌, map, foldl}
pub use native.Mathlib.Omega.{arith}
