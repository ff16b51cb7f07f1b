-- ===== src/Prelude/Results.antt =====
-- `Result<T, E>` with its `?`.
use mathlib.Core.Bool.{Bool, true, false}
use mathlib.Core.Path.{◌≡◌, refl, ap}
use jrpxy.Prelude.Tests.{if◌then◌else◌}
use mathlib.Core.Logic.{◌≢◌, ◌⊎◌, inl, inr}

pub data Result {ℓ} (A E : Type ℓ) : Type ℓ where
  ok : A → Result A E
  err : E → Result A E

infixl 5 ◌>>=◌ ◌>>◌
abbrev pub ◌>>=◌ {ℓ} : {A B E : Type ℓ} → Result A E → (A → Result B E) → Result B E
ok a >>= f = f a
err e >>= f = err e

abbrev pub ◌>>◌ {ℓ} : {B E : Type ℓ} → Result Unit E → Result B E → Result B E
m >> k = m >>= λ _. k

-- `Result::map_err`
abbrev pub map_err {ℓ} : {A E F : Type ℓ} → (E → F) → Result A E → Result A F
map_err f (ok a) = ok a
map_err f (err e) = err (f e)

pub Result-cases {ℓ} :
    {A E : Type ℓ} (r : Result A E) → ((a : A) × (r ≡ ok a)) ⊎ ((e : E) × (r ≡ err e))
Result-cases (ok a) = inl (a, refl)
Result-cases (err e) = inr (e, refl)

module _ {ℓ} {A B E : Type ℓ} where
  pub bind_ext :
      (m : Result A E) {f g : A → Result B E} → ((a : A) → f a ≡ g a) → (m >>= f) ≡ (m >>= g)
  bind_ext (ok a) h = h a
  bind_ext (err e) h = refl

  pub bind-eq-ok :
      (m : Result A E) (f : A → Result B E) {b : B}
      → (m >>= f) ≡ ok b
      → (a : A) × (m ≡ ok a) × (f a ≡ ok b)
  bind-eq-ok (ok a) f h = (a, refl, h)
  bind-eq-ok (err e) f h = cc

module _ {ℓ} {A B C E : Type ℓ} where
  pub bind_assoc :
      (m : Result A E) (f : A → Result B E) (g : B → Result C E)
      → (m >>= f >>= g) ≡ (m >>= λ a. f a >>= g)
  bind_assoc (ok a) f g = refl
  bind_assoc (err e) f g = refl

module _ {ℓ} {A E : Type ℓ} where
  pub err-ne-ok : {e : E} {a : A} → ◌≢◌ {A = Result A E} (err e) (ok a)
  err-ne-ok = λ h. cc

  pub ok-injective : {a b : A} → ◌≡◌ {A = Result A E} (ok a) (ok b) → a ≡ b
  ok-injective h = cc

  pub err-injective : {d e : E} → ◌≡◌ {A = Result A E} (err d) (err e) → d ≡ e
  err-injective h = cc

  -- `if c { return Err(e) }`, and the rest has succeeded.
  pub guarded-ok :
      (c : Bool) (e : E) (m : Result A E) {a : A}
      → (if c then err e else m) ≡ ok a
      → (c ≡ false) × (m ≡ ok a)
  guarded-ok true e m h = cc
  guarded-ok false e m h = (refl, h)

  pub map_err-eq-ok :
      {F : Type ℓ} (f : F → E) (m : Result A F) {a : A} → map_err f m ≡ ok a → m ≡ ok a
  map_err-eq-ok f (ok x) h = let e : x ≡ _ = ok-injective h in ap ok e
  map_err-eq-ok f (err e) h = cc
