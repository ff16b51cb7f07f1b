-- ===== src/Prelude/Search.antt =====
-- `iter().position(p).unwrap_or(len)`, and the cut of a list at that place.
use Prim.Native.Nat.{ℕ, suc}
use mathlib.Core.Path.{◌≡◌, refl}
use mathlib.Core.Logic.{inl, inr}
use mathlib.Core.Bool.{Bool, true, not}
use mathlib.Core.List.{List, [], ◌∷◌, ◌++◌}
use native.Mathlib.Omega.{arith}
use jrpxy.Prelude.Lists.{unwrap_or, position, length, take, drop, all}
use jrpxy.Prelude.Tests.{Bool-cases, if◌then◌else◌}

module _ {ℓ} {A : Type ℓ} where
  abbrev pub find_or_end : (A → Bool) → List A → ℕ
  find_or_end p xs = unwrap_or (position p xs) (length xs)

  -- The list is empty, or its first element satisfies `p`.
  abbrev pub Begins : (A → Bool) → List A → Type 0
  Begins p [] = Unit
  Begins p (x ∷ xs) = p x ≡ true

module _ {ℓ} {A : Type ℓ} (p : A → Bool) where
  pub find_or_end-cons :
      (x : A) (xs : List A) → find_or_end p (x ∷ xs) ≡ (if p x then 0 else suc (find_or_end p xs))
  find_or_end-cons x xs = ground arith

  pub all-take-find : (xs : List A) → all (λ x. not (p x)) (take (find_or_end p xs) xs) ≡ true
  all-take-find [] = refl
  all-take-find (x ∷ xs) = elim (Bool-cases (p x)) [
    | inl h ↦ rw (find_or_end-cons, h) refl
    | inr h ↦ rw (find_or_end-cons, h) (rw h (all-take-find xs))
  ]

  pub Begins-drop-find : (xs : List A) → Begins p (drop (find_or_end p xs) xs)
  Begins-drop-find [] = tt
  Begins-drop-find (x ∷ xs) = elim (Bool-cases (p x)) [
    | inl h ↦ rw (find_or_end-cons, h) h
    | inr h ↦ rw (find_or_end-cons, h) (Begins-drop-find xs)
  ]

  pub find_or_end-append :
      (xs ys : List A)
      → all (λ x. not (p x)) xs ≡ true
      → Begins p ys
      → find_or_end p (xs ++ ys) ≡ length xs
  find_or_end-append [] [] h b = refl
  find_or_end-append [] (y ∷ ys) h b = rw (find_or_end-cons, b)
  find_or_end-append (x ∷ xs) ys h b =
      ground (arith, find_or_end-cons x (xs ++ ys), find_or_end-append xs ys)
