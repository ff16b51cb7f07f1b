-- ===== src/Prelude.antt =====
-- The names that the other modules share: the libraries', passed on, and those of the children.
mod Tests
mod Lists
mod Results
mod Ascii
mod Numbers
mod Formats
mod Hex
mod Search
mod Filters
pub use Tests.*
pub use Lists.*
pub use Results.*
unfoldable pub use Ascii.{
  is_ascii_digit, is_ascii_alphabetic, is_ascii_alphanumeric, is_ascii_hexdigit, to_ascii_lowercase,
  eq_ignore_ascii_case, bytes_eq,
}
pub use Ascii.{bytes_eq_iff, eq_ignore_ascii_case_comm}
pub use Prim.Native.Nat.{ℕ, zero, suc, ◌+◌, ◌-◌, ◌*◌, ◌/◌, ◌%◌, ◌^◌, ◌≤◌, ◌<◌, min}
pub use mathlib.Core.Path.{◌≡◌, refl, sym, ap, ◌∙◌, subst}
pub use mathlib.Core.Logic.{◌≢◌, ◌↔◌, ◌⊎◌, inl, inr}
pub use mathlib.Core.Bool.{Bool, true, false, not, ◌&&◌, ◌||◌}
pub use mathlib.Core.Option.{Option, none, some, some-injective}
pub use mathlib.Core.List.{List, [], ◌∷◌, ◌++◌, append-nil, append_assoc}
pub use native.Mathlib.Omega.{arith}
unfoldable pub use Numbers.{parse_u64}
unfoldable pub use Formats.{to_decimal}
unfoldable pub use Hex.{to_hex, from_hex}
pub use Hex.{from_hex-to_hex, to_hex_digits, length-to_hex, to_hex-ne-nil}
pub use Formats.{to_decimal-ne-nil, to_decimal_digits, parse_u64-to_decimal}
pub use Search.*
pub use Filters.*
pub use Numbers.{u64_max}
