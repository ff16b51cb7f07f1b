-- ===== src/Proxy/Fields/Trailers.antt =====
-- proxy/src/lib.rs: trailers that are forwarded, at a recipient that folds them into the header section.
use jrpxy.Prelude.{
  ◌==◌, ◌++◌, keep_if, keep_if-append, append-nil, Bytes, Bool, true, false, not, List, [], ◌∷◌,
  ◌≡◌, ◌≢◌, refl, sym, ap, ◌∙◌, arith, codes, any, all, both_true, all-keep_if, Bool-cases, inl,
  inr, eq_ignore_ascii_case, to_ascii_lowercase,
}
use jrpxy.HttpMessage.Header.{Field, Headers, framing, merge, retain, get_header}
use jrpxy.HttpMessage.Header.Folds.{is_other, framing-merge}
use jrpxy.Proxy.Fields.{
  hop_by_hop_headers, forbidden_trailer_headers, is_standard_hop_by_hop, is_forbidden_trailer_field,
  sanitize_trailers,
}

all_implies :
    (p q : Field → Bool) (fs : List Field)
    → ((f : Field) → p f ≡ true → q f ≡ true)
    → all p fs ≡ true
    → all q fs ≡ true
all_implies p q [] h k = refl
all_implies p q (f ∷ fs) h k = ground (arith, h f, all_implies p q fs h)

clash : false ≢ true
clash = λ e. cc

any-ext : (p q : Bytes → Bool) (xs : List Bytes) → ((x : Bytes) → p x ≡ q x) → any p xs ≡ any q xs
any-ext p q [] h = refl
any-ext p q (x ∷ xs) h = rw (h x, any-ext p q xs h) refl

-- A name compares like any other spelling of it.
spelled :
    (h n m : Bytes)
    → eq_ignore_ascii_case n m ≡ true
    → eq_ignore_ascii_case h n ≡ eq_ignore_ascii_case h m
unfolding eq_ignore_ascii_case
spelled [] [] [] e = refl
spelled [] [] (z ∷ m) e = cc
spelled [] (y ∷ n) [] e = cc
spelled [] (y ∷ n) (z ∷ m) e = refl
spelled (x ∷ h) [] [] e = refl
spelled (x ∷ h) [] (z ∷ m) e = cc
spelled (x ∷ h) (y ∷ n) [] e = cc
spelled (x ∷ h) (y ∷ n) (z ∷ m) e =
    let (a, b) =
      both_true (to_ascii_lowercase y == to_ascii_lowercase z) (eq_ignore_ascii_case n m) e in
    let same : to_ascii_lowercase y ≡ to_ascii_lowercase z = ground (arith, a) in
    rw (same, spelled h n m b) refl

forbidden_spelled :
    (n m : Bytes)
    → eq_ignore_ascii_case n m ≡ true
    → is_forbidden_trailer_field n ≡ is_forbidden_trailer_field m
unfolding is_forbidden_trailer_field is_standard_hop_by_hop
forbidden_spelled n m e =
    rw
      (
        any-ext (λ h. eq_ignore_ascii_case h n) (λ h. eq_ignore_ascii_case h m) hop_by_hop_headers
            (λ h. spelled h n m e),
        any-ext (λ h. eq_ignore_ascii_case h n) (λ h. eq_ignore_ascii_case h m)
            forbidden_trailer_headers (λ h. spelled h n m e),
      )
      refl

none_of :
    (p q : Field → Bool) (fs : List Field)
    → ((f : Field) → p f ≡ true → q f ≡ false)
    → keep_if p (keep_if q fs) ≡ []
none_of p q [] h = refl
none_of p q (f ∷ fs) h = ground (arith, h f, none_of p q fs h)

-- For a name that may not stand in a trailer section, in any spelling, a header set that sanitized
-- trailers are merged into has the same fields, in order, as before.
pub sanitize_trailers-get_header :
    (h t : Headers) (name : Bytes)
    → is_forbidden_trailer_field name ≡ true
    → get_header (merge h (sanitize_trailers t)) name ≡ get_header h name
unfolding get_header merge sanitize_trailers retain
sanitize_trailers-get_header h t name forbidden =
    let pick : Field → Bool = λ f. eq_ignore_ascii_case name f.0 in
    let keep : Field → Bool = λ f. not (is_forbidden_trailer_field f.0) in
    keep_if-append pick h.headers (keep_if keep t.headers)
    ∙ ap (◌++◌ (keep_if pick h.headers)) (
        none_of pick keep t.headers
          (λ f e. ap not (sym (forbidden_spelled name f.0 e) ∙ forbidden)))
    ∙ append-nil (keep_if pick h.headers)

stripped :
    (f : Field) (n : Bytes)
    → not (is_forbidden_trailer_field f.0) ≡ true
    → is_forbidden_trailer_field n ≡ true
    → eq_ignore_ascii_case f.0 n ≡ false
stripped f n h k = elim (Bool-cases (eq_ignore_ascii_case f.0 n)) [
  | inl e ↦ absurd (clash (ap not (sym (forbidden_spelled f.0 n e ∙ k)) ∙ h))
  | inr e ↦ e
]

kept_is_other : (f : Field) → not (is_forbidden_trailer_field f.0) ≡ true → is_other f ≡ true
unfolding is_forbidden_trailer_field is_standard_hop_by_hop eq_ignore_ascii_case
kept_is_other f h =
    rw (stripped f (codes "content-length") h refl, stripped f (codes "transfer-encoding") h refl)
      refl

-- Sanitized trailers do not change the framing of the header set that they are merged into.
pub sanitize_trailers-framing :
    (h t : Headers) → framing (merge h (sanitize_trailers t)) ≡ framing h
unfolding sanitize_trailers retain
sanitize_trailers-framing h t = framing-merge h (sanitize_trailers t) (
    all_implies (λ f. not (is_forbidden_trailer_field f.0)) is_other
      (keep_if (λ f. not (is_forbidden_trailer_field f.0)) t.headers) kept_is_other
      (all-keep_if (λ f. not (is_forbidden_trailer_field f.0)) t.headers))
