-- ===== src/Prelude/Filters.antt =====
-- `retain` and `filter` on lists.
use mathlib.Core.Path.{◌≡◌, refl}
use mathlib.Core.Bool.{Bool, true, false, not, ◌&&◌}
use mathlib.Core.List.{List, [], ◌∷◌}
use native.Mathlib.Omega.{arith}
use jrpxy.Prelude.Lists.{keep_if, all}

module _ {ℓ} {A : Type ℓ} where
  pub keep_if-ext :
      (p q : A → Bool) (xs : List A) → ((x : A) → p x ≡ q x) → keep_if p xs ≡ keep_if q xs
  keep_if-ext p q [] h = refl
  keep_if-ext p q (x ∷ xs) h = rw (h x, keep_if-ext p q xs h) refl

  pub keep_if_twice : (p : A → Bool) (xs : List A) → keep_if p (keep_if p xs) ≡ keep_if p xs
  keep_if_twice p [] = refl
  keep_if_twice p (x ∷ xs) = ground (arith, keep_if_twice p xs)

  pub keep_if_none : (p : A → Bool) (xs : List A) → keep_if p (keep_if (λ x. not (p x)) xs) ≡ []
  keep_if_none p [] = refl
  keep_if_none p (x ∷ xs) = ground (arith, keep_if_none p xs)

  pub all-keep_if : (p : A → Bool) (xs : List A) → all p (keep_if p xs) ≡ true
  all-keep_if p [] = refl
  all-keep_if p (x ∷ xs) = ground (arith, all-keep_if p xs)

pub both_true : (a b : Bool) → a && b ≡ true → (a ≡ true) × (b ≡ true)
both_true true b h = (refl, h)
both_true false b h = cc
