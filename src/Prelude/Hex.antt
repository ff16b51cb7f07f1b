-- ===== src/Prelude/Hex.antt =====
-- How `format!` writes a number in hexadecimal, `{:x}`, and a reader of such numbers.
use Prim.Native.Nat.{ℕ, zero, suc, ◌+◌, ◌-◌, ◌*◌, ◌/◌, ◌%◌, ◌≤◌, ◌<◌}
use mathlib.Core.Path.{◌≡◌, refl, ◌∙◌}
use mathlib.Core.Logic.{◌≢◌, inl, inr}
use mathlib.Core.Bool.{true}
use mathlib.Core.List.{[], ◌∷◌, ◌++◌}
use native.Mathlib.Omega.{arith}
use jrpxy.Prelude.Ascii.{is_ascii_hexdigit, is_ascii_digit}
use jrpxy.Prelude.Lists.{length, all, length-append, all-append}
use jrpxy.Prelude.Numbers.{u64_max}
use jrpxy.Prelude.Tests.{Bytes, ltb, if◌then◌else◌, Bool-cases}

-- Fuel above the number is enough: each round divides it.
hex_digit : ℕ → ℕ
hex_digit d = if ltb d 10 then b'0' + d else b'a' + (d - 10)

hexadecimal : ℕ → ℕ → Bytes
unfolding hex_digit
hexadecimal zero n = []
hexadecimal (suc fuel) n =
    let before = hexadecimal fuel (n / 16) in
    if ltb n 16 then hex_digit n ∷ [] else before ++ hex_digit (n % 16) ∷ []

unfoldable pub to_hex : ℕ → Bytes
unfolding hexadecimal
to_hex n = hexadecimal (suc n) n

-- A reader of hexadecimal numbers, for digits only.
hex_value : ℕ → ℕ
hex_value c = if ltb c b'a' then c - b'0' else c - b'a' + 10

unfoldable pub from_hex : ℕ → Bytes → ℕ
unfolding hex_value
from_hex acc [] = acc
from_hex acc (c ∷ r) = from_hex (acc * 16 + hex_value c) r

from_hex-snoc :
    (xs : Bytes) (acc c : ℕ) → from_hex acc (xs ++ c ∷ []) ≡ from_hex acc xs * 16 + hex_value c
unfolding from_hex
from_hex-snoc [] acc c = refl
from_hex-snoc (x ∷ xs) acc c = from_hex-snoc xs (acc * 16 + hex_value x) c

hex_digit_lem :
    (d : ℕ) → d < 16 → (hex_value (hex_digit d) ≡ d) × (is_ascii_hexdigit (hex_digit d) ≡ true)
unfolding hex_digit hex_value is_ascii_hexdigit is_ascii_digit
hex_digit_lem d h = ground arith

from_hex-hexadecimal : (fuel n : ℕ) → n < fuel → from_hex 0 (hexadecimal fuel n) ≡ n
unfolding hexadecimal
from_hex-hexadecimal zero n h = elim h [ ]
from_hex-hexadecimal (suc fuel) n h = elim (Bool-cases (ltb n 16)) [
  | inl small ↦ rw small (unfold from_hex in omega (arith, (hex_digit_lem n (ground arith)).0))
  | inr large ↦ rw large (
      from_hex-snoc (hexadecimal fuel (n / 16)) 0 (hex_digit (n % 16))
      ∙ omega (
        arith,
        from_hex-hexadecimal fuel (n / 16) (ground arith),
        (hex_digit_lem (n % 16) (omega arith)).0,
      ))
]

hexadecimal_digits : (fuel n : ℕ) → n < fuel → all is_ascii_hexdigit (hexadecimal fuel n) ≡ true
unfolding hexadecimal
hexadecimal_digits zero n h = elim h [ ]
hexadecimal_digits (suc fuel) n h = elim (Bool-cases (ltb n 16)) [
  | inl small ↦ rw small (rw (hex_digit_lem n (ground arith)).1 refl)
  | inr large ↦ rw large (
      all-append is_ascii_hexdigit (hexadecimal fuel (n / 16)) (hex_digit (n % 16) ∷ [])
      ∙ rw
          (
            hexadecimal_digits fuel (n / 16) (ground arith),
            (hex_digit_lem (n % 16) (omega arith)).1,
          )
          refl)
]

pow16 : ℕ → ℕ
pow16 zero = 1
pow16 (suc k) = 16 * pow16 k

hexadecimal-length :
    (k fuel n : ℕ) → n < pow16 (suc k) → n < fuel → length (hexadecimal fuel n) ≤ suc k
unfolding hexadecimal pow16
hexadecimal-length k zero n small h = elim h [ ]
hexadecimal-length zero (suc fuel) n small h =
    let one : ltb n 16 ≡ true = ground arith in rw one (omega arith)
hexadecimal-length (suc k) (suc fuel) n small h = elim (Bool-cases (ltb n 16)) [
  | inl digit ↦ rw digit (omega arith)
  | inr large ↦ rw large (
      omega (
        arith,
        length-append (hexadecimal fuel (n / 16)) (hex_digit (n % 16) ∷ []),
        hexadecimal-length k fuel (n / 16) (omega (arith, small)) (ground arith),
      ))
]

pub from_hex-to_hex : (n : ℕ) → from_hex 0 (to_hex n) ≡ n
unfolding to_hex
from_hex-to_hex n = from_hex-hexadecimal (suc n) n (omega arith)

pub to_hex_digits : (n : ℕ) → all is_ascii_hexdigit (to_hex n) ≡ true
unfolding to_hex
to_hex_digits n = hexadecimal_digits (suc n) n (omega arith)

pow16_lem : pow16 16 ≡ u64_max + 1
unfolding pow16
pow16_lem = refl

pub length-to_hex : (n : ℕ) → n ≤ u64_max → length (to_hex n) ≤ 16
unfolding to_hex
length-to_hex n le = hexadecimal-length 15 (suc n) n (omega (arith, le, pow16_lem)) (omega arith)

snoc-ne-nil : (xs : Bytes) (a : ℕ) → xs ++ a ∷ [] ≢ []
snoc-ne-nil [] a h = cc
snoc-ne-nil (x ∷ xs) a h = cc

pub to_hex-ne-nil : (n : ℕ) → to_hex n ≢ []
unfolding to_hex hexadecimal
to_hex-ne-nil n = elim (Bool-cases (ltb n 16)) [
  | inl small ↦ rw small (λ h. cc)
  | inr large ↦ rw large (snoc-ne-nil (hexadecimal n (n / 16)) (hex_digit (n % 16)))
]
