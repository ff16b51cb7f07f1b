-- ===== src/Prelude/Numbers.antt =====
-- The decimal parser of `u64`, from Rust's core library.
use Prim.Native.Nat.{ℕ, ◌+◌, ◌-◌, ◌*◌, ◌^◌}
use mathlib.Core.Bool.{◌&&◌}
use mathlib.Core.List.{[], ◌∷◌}
use mathlib.Core.Option.{Option, none, some}
use jrpxy.Prelude.Ascii.{is_ascii_digit}
use jrpxy.Prelude.Tests.{Bytes, leb, ◌==◌, if◌then◌else◌}

abbrev pub u64_max : ℕ
u64_max = 2 ^ 64 - 1

-- `checked_mul` by ten and `checked_add` of the digit: past `u64_max` there is no result.
unfoldable pub parse_digits : ℕ → Bytes → Option ℕ
unfolding is_ascii_digit
parse_digits acc [] = some acc
parse_digits acc (b ∷ r) =
    let n = acc * 10 + (b - b'0') in
    let rest = parse_digits n r in if is_ascii_digit b && leb n u64_max then rest else none

-- `str::parse::<u64>`: no digit at all is an error, and one leading `+` is accepted.
unfoldable pub parse_u64 : Bytes → Option ℕ
unfolding parse_digits
parse_u64 [] = none
parse_u64 (b ∷ []) = if b == b'+' then none else parse_digits 0 (b ∷ [])
parse_u64 (b ∷ c ∷ r) = parse_digits 0 (if b == b'+' then c ∷ r else b ∷ c ∷ r)
