-- ===== src/Prelude/Formats.antt =====
-- How `format!` writes a number in decimal, `{}`.
use Prim.Native.Nat.{ℕ, zero, suc, ◌+◌, ◌-◌, ◌*◌, ◌/◌, ◌%◌, ◌≤◌, ◌<◌}
use mathlib.Core.Path.{◌≡◌, refl, ◌∙◌}
use mathlib.Core.Logic.{◌≢◌, inl, inr}
use mathlib.Core.Bool.{true}
use mathlib.Core.List.{List, [], ◌∷◌, ◌++◌}
use mathlib.Core.Option.{some}
use native.Mathlib.Omega.{arith}
use jrpxy.Prelude.Ascii.{is_ascii_digit}
use jrpxy.Prelude.Lists.{all, all-append}
use jrpxy.Prelude.Numbers.{parse_digits, parse_u64, u64_max}
use jrpxy.Prelude.Tests.{Bytes, ltb, if◌then◌else◌, Bool-cases}

-- Fuel above the number is enough: each round divides it.
decimal : ℕ → ℕ → Bytes
decimal zero n = []
decimal (suc fuel) n =
    let before = decimal fuel (n / 10) in
    if ltb n 10 then (b'0' + n) ∷ [] else before ++ (b'0' + n % 10) ∷ []

unfoldable pub to_decimal : ℕ → Bytes
unfolding decimal
to_decimal n = decimal (suc n) n

-- One more digit.
parse_digits-snoc :
    (xs : Bytes) (acc m c : ℕ)
    → parse_digits acc xs ≡ some m
    → is_ascii_digit c ≡ true
    → m * 10 + (c - b'0') ≤ u64_max
    → parse_digits acc (xs ++ c ∷ []) ≡ some (m * 10 + (c - b'0'))
unfolding parse_digits
parse_digits-snoc [] acc m c h d le = ground arith
parse_digits-snoc (x ∷ xs) acc m c h d le =
    ground (arith, parse_digits-snoc xs (acc * 10 + (x - b'0')) m c)

digit-IsDigit : (d : ℕ) → d < 10 → is_ascii_digit (b'0' + d) ≡ true
unfolding is_ascii_digit
digit-IsDigit d h = ground arith

decimal_digits : (fuel n : ℕ) → n < fuel → all is_ascii_digit (decimal fuel n) ≡ true
unfolding decimal
decimal_digits zero n h = elim h [ ]
decimal_digits (suc fuel) n h = elim (Bool-cases (ltb n 10)) [
  | inl small ↦ rw small (rw (digit-IsDigit n (ground arith)) refl)
  | inr large ↦ rw large (
      all-append is_ascii_digit (decimal fuel (n / 10)) ((b'0' + n % 10) ∷ [])
      ∙ rw (decimal_digits fuel (n / 10) (ground arith), digit-IsDigit (n % 10) (omega arith)) refl)
]

parse-decimal : (fuel n : ℕ) → n < fuel → n ≤ u64_max → parse_digits 0 (decimal fuel n) ≡ some n
unfolding decimal
parse-decimal zero n h le = elim h [ ]
parse-decimal (suc fuel) n h le = elim (Bool-cases (ltb n 10)) [
  | inl small ↦ rw small (unfold parse_digits is_ascii_digit in ground arith)
  | inr large ↦
      let value : n / 10 * 10 + (b'0' + n % 10 - b'0') ≡ n = omega arith in
      rw large (
        parse_digits-snoc (decimal fuel (n / 10)) 0 (n / 10) (b'0' + n % 10)
          (parse-decimal fuel (n / 10) (ground arith) (omega arith))
          (digit-IsDigit (n % 10) (omega arith)) (omega (arith, value, le))
        ∙ rw value refl)
]

parse_u64-digits :
    (b : ℕ) (xs : Bytes) → is_ascii_digit b ≡ true → parse_u64 (b ∷ xs) ≡ parse_digits 0 (b ∷ xs)
unfolding parse_u64 is_ascii_digit
parse_u64-digits b [] h = ground arith
parse_u64-digits b (c ∷ xs) h = ground arith

parse_u64-all :
    (xs : Bytes) (n : ℕ)
    → all is_ascii_digit xs ≡ true
    → parse_digits 0 xs ≡ some n
    → xs ≢ []
    → parse_u64 xs ≡ some n
parse_u64-all [] n d h ne = absurd (ne refl)
parse_u64-all (b ∷ xs) n d h ne = parse_u64-digits b xs (ground arith) ∙ h

snoc-ne-nil {ℓ} : {A : Type ℓ} (xs : List A) (a : A) → xs ++ a ∷ [] ≢ []
snoc-ne-nil [] a h = cc
snoc-ne-nil (x ∷ xs) a h = cc

pub to_decimal-ne-nil : (n : ℕ) → to_decimal n ≢ []
unfolding to_decimal decimal
to_decimal-ne-nil n = elim (Bool-cases (ltb n 10)) [
  | inl small ↦ rw small (λ h. cc)
  | inr large ↦ rw large (snoc-ne-nil (decimal n (n / 10)) (b'0' + n % 10))
]

pub to_decimal_digits : (n : ℕ) → all is_ascii_digit (to_decimal n) ≡ true
unfolding to_decimal
to_decimal_digits n = decimal_digits (suc n) n (omega arith)

pub parse_u64-to_decimal : (n : ℕ) → n ≤ u64_max → parse_u64 (to_decimal n) ≡ some n
unfolding to_decimal
parse_u64-to_decimal n le =
    parse_u64-all (to_decimal n) n (to_decimal_digits n) (parse-decimal (suc n) n (omega arith) le)
      (to_decimal-ne-nil n)
