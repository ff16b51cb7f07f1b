-- ===== src/HttpMessage/Header/Folds.antt =====
-- http-message/src/header.rs: the framing of a header set that other fields are merged into.
use jrpxy.Prelude.{Bool, true, false, not, ◌&&◌, List, [], ◌∷◌, ◌++◌, ◌≡◌, refl, ok, bind_ext, all}
use jrpxy.HttpMessage.Header.{Field, Headers, Scan, scan_field, scan_fields, framing, merge}
use jrpxy.HttpMessage.Header.Framed.{is_cl, is_te}

-- The field is about something else than framing.
abbrev pub is_other : Field → Bool
is_other f = not (is_cl f) && not (is_te f)

scan_field-other : (f : Field) (s : Scan) → is_other f ≡ true → scan_field f s ≡ ok s
unfolding scan_field
scan_field-other f s h = let (a, b) = both (is_cl f) (is_te f) h in rw (scan_field, a, b) refl
  where
    both : (a b : Bool) → not a && not b ≡ true → (a ≡ false) × (b ≡ false)
    both false false h = (refl, refl)
    both false true h = cc
    both true b h = cc

scan_fields-other : (fs : List Field) (s : Scan) → all is_other fs ≡ true → scan_fields fs s ≡ ok s
unfolding scan_fields
scan_fields-other [] s h = refl
scan_fields-other (f ∷ fs) s h =
    let (here, there) = both (is_other f) (all is_other fs) h in
    rw (scan_field-other f s here) (scan_fields-other fs s there)
  where
    both : (a b : Bool) → a && b ≡ true → (a ≡ true) × (b ≡ true)
    both true b h = (refl, h)
    both false b h = cc

scan_fields-append :
    (fs gs : List Field) (s : Scan)
    → all is_other gs ≡ true
    → scan_fields (fs ++ gs) s ≡ scan_fields fs s
unfolding scan_fields
scan_fields-append [] gs s h = scan_fields-other gs s h
scan_fields-append (f ∷ fs) gs s h = bind_ext (scan_field f s) (λ t. scan_fields-append fs gs t h)

-- Fields that are not Content-Length or Transfer-Encoding do not change the framing of the header set that
-- they are merged into.
pub framing-merge :
    (h t : Headers) → all is_other t.headers ≡ true → framing (merge h t) ≡ framing h
unfolding framing merge
framing-merge h t others = rw (scan_fields-append h.headers t.headers _ others) refl
