-- ===== src/Proxy/Target/Plain.antt =====
-- proxy/src/request_target.rs: which targets `classify` passes through.
use jrpxy.Prelude.{
  ℕ, Bytes, Bool, true, false, not, ◌==◌, ◌||◌, ltb, if◌then◌else◌, [], ◌∷◌, ◌≡◌, ◌≢◌, refl, sym,
  ap, ◌∙◌, ◌+◌, codes, bytes_eq, bytes_eq_iff, Begins, Bool-cases, inl, inr, length, take, drop,
  find_or_end, is_ascii_alphabetic, is_empty, any,
}
use jrpxy.Proxy.Target.{
  RequestTargetForm, origin, asterisk, malformed, ends_scheme, ends_authority, is_at,
  parse_authority, parse_scheme, parse_absolute_form, classify_first, classify,
}

abbrev is_plain : RequestTargetForm → Bool
is_plain origin = true
is_plain asterisk = true
is_plain _ = false

choice :
    (c : Bool) (f g : RequestTargetForm)
    → is_plain f ≡ false
    → is_plain g ≡ false
    → is_plain (if c then f else g) ≡ false
choice true f g h k = h
choice false f g h k = k

parse_authority_plain : (s : Bytes) → is_plain (parse_authority s) ≡ false
unfolding parse_authority
parse_authority_plain s =
    let a = take (find_or_end ends_authority s) s in
    choice (is_empty a) _ _ refl (choice (any is_at a) _ _ refl refl)

parse_scheme_plain : (t : Bytes) → is_plain (parse_scheme t) ≡ false
unfolding parse_scheme
parse_scheme_plain t =
    let n = find_or_end ends_scheme t in
    choice (ltb (length t) (n + 3) || not (bytes_eq (take 3 (drop n t)) (codes "://"))) _ _ refl
      (parse_authority_plain (drop (n + 3) t))

lettered_plain :
    (b : ℕ) (r : Bytes)
    → is_plain (if is_ascii_alphabetic b then parse_absolute_form (b ∷ r) else malformed) ≡ false
unfolding parse_absolute_form
lettered_plain b r =
    choice (is_ascii_alphabetic b) _ _
      (choice (not (is_ascii_alphabetic b)) _ _ refl (parse_scheme_plain (b ∷ r))) refl

false-ne-true : false ≢ true
false-ne-true = λ e. cc

first_origin : (t : Bytes) → classify_first t ≡ origin → Begins (λ b. b == b'/') t
unfolding classify_first
first_origin [] h = tt
first_origin (b ∷ r) h = elim (Bool-cases (b == b'/')) [
  | inl e ↦ e
  | inr e ↦
      let same : (if is_ascii_alphabetic b then parse_absolute_form (b ∷ r) else malformed)
          ≡ origin =
        rw (← h, e) in
      absurd (false-ne-true (sym (lettered_plain b r) ∙ ap is_plain same))
]

first_not_asterisk : (t : Bytes) → classify_first t ≢ asterisk
unfolding classify_first
first_not_asterisk [] h = cc
first_not_asterisk (b ∷ r) h = elim (Bool-cases (b == b'/')) [
  | inl e ↦ let same : origin ≡ asterisk = rw (← h, e) in cc
  | inr e ↦
      let same : (if is_ascii_alphabetic b then parse_absolute_form (b ∷ r) else malformed)
          ≡ asterisk =
        rw (← h, e) in
      absurd (false-ne-true (sym (lettered_plain b r) ∙ ap is_plain same))
]

pub classify_origin : (t : Bytes) → classify t ≡ origin → Begins (λ b. b == b'/') t
unfolding classify
classify_origin t h = elim (Bool-cases (bytes_eq t (codes "*"))) [
  | inl e ↦ let same : asterisk ≡ origin = rw (← h, e) in cc
  | inr e ↦ first_origin t (rw (← h, e))
]

pub classify_asterisk : (t : Bytes) → classify t ≡ asterisk → t ≡ codes "*"
unfolding classify
classify_asterisk t h = elim (Bool-cases (bytes_eq t (codes "*"))) [
  | inl e ↦ (bytes_eq_iff t (codes "*")).0 e
  | inr e ↦ absurd (first_not_asterisk t (rw (← h, e)))
]
