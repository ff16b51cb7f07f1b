-- ===== src/Prelude/Ascii.antt =====
-- The tests of `u8` and `[u8]` in Rust's core library that the program uses.
use mathlib.Core.Bool.{Bool, true, false, ◌&&◌, ◌||◌}
use mathlib.Core.List.{[], ◌∷◌}
use mathlib.Core.Logic.{◌↔◌}
use mathlib.Core.Path.{◌≡◌, refl}
use Prim.Native.Nat.{ℕ, ◌+◌}
use native.Mathlib.Omega.{arith}
use jrpxy.Prelude.Tests.{Bytes, leb, ◌==◌, if◌then◌else◌}

abbrev within : ℕ → ℕ → ℕ → Bool
within lo hi b = leb lo b && leb b hi

unfoldable pub is_ascii_digit : ℕ → Bool
is_ascii_digit b = within b'0' b'9' b

unfoldable pub is_ascii_alphabetic : ℕ → Bool
is_ascii_alphabetic b = within b'a' b'z' b || within b'A' b'Z' b

unfoldable pub is_ascii_alphanumeric : ℕ → Bool
unfolding is_ascii_digit is_ascii_alphabetic
is_ascii_alphanumeric b = is_ascii_alphabetic b || is_ascii_digit b

unfoldable pub is_ascii_hexdigit : ℕ → Bool
unfolding is_ascii_digit
is_ascii_hexdigit b = is_ascii_digit b || within b'a' b'f' b || within b'A' b'F' b

unfoldable pub to_ascii_lowercase : ℕ → ℕ
to_ascii_lowercase b = if within b'A' b'Z' b then b + 32 else b

unfoldable pub eq_ignore_ascii_case : Bytes → Bytes → Bool
unfolding to_ascii_lowercase
eq_ignore_ascii_case [] [] = true
eq_ignore_ascii_case (x ∷ xs) (y ∷ ys) =
    to_ascii_lowercase x == to_ascii_lowercase y && eq_ignore_ascii_case xs ys
eq_ignore_ascii_case _ _ = false

-- `==` on byte slices.
unfoldable pub bytes_eq : Bytes → Bytes → Bool
bytes_eq [] [] = true
bytes_eq (x ∷ xs) (y ∷ ys) = x == y && bytes_eq xs ys
bytes_eq _ _ = false

pub bytes_eq_iff : (xs ys : Bytes) → (bytes_eq xs ys ≡ true) ↔ (xs ≡ ys)
unfolding bytes_eq
bytes_eq_iff (x ∷ xs) (y ∷ ys) = ground (arith, bytes_eq_iff xs ys)
bytes_eq_iff _ _ = ground arith

==_comm : (x y : ℕ) → (x == y) ≡ (y == x)
==_comm x y = ground arith

pub eq_ignore_ascii_case_comm :
    (xs ys : Bytes) → eq_ignore_ascii_case xs ys ≡ eq_ignore_ascii_case ys xs
unfolding eq_ignore_ascii_case
eq_ignore_ascii_case_comm [] [] = refl
eq_ignore_ascii_case_comm [] (y ∷ ys) = refl
eq_ignore_ascii_case_comm (x ∷ xs) [] = refl
eq_ignore_ascii_case_comm (x ∷ xs) (y ∷ ys) =
    rw (==_comm (to_ascii_lowercase x) (to_ascii_lowercase y), eq_ignore_ascii_case_comm xs ys)
