-- ===== src/HttpMessage/Heads/Framed.antt =====
-- The framing that a recipient of a written head reads from its fields.
use jrpxy.Prelude.{
  ℕ, ◌≤◌, true, false, not, List, [], ◌∷◌, ◌++◌, Bytes, codes, to_decimal, u64_max, ◌≡◌, refl, sym,
  ap, ◌∙◌, arith, ok, Bool-cases, inl, inr, all, keep_if, eq_ignore_ascii_case,
  eq_ignore_ascii_case_comm, is_ascii_digit, split, to_decimal_digits, parse_u64-to_decimal,
  append-nil,
}
use jrpxy.Util.Parse.{trim_ows}
use jrpxy.Util.Parse.Trim.{IsTrimmed, trim_ows-surround, starts_blank, ends_blank}
use jrpxy.Util.Parse.{is_ows}
use jrpxy.HttpMessage.Framing.{
  ParsedFraming, WriteFraming, length, chunked, no_framing, preserve_framing, strip_framing,
  is_framing_header,
}
use jrpxy.HttpMessage.Header.{Field, framing}
use jrpxy.HttpMessage.Header.Framed.{is_cl, is_te, is_comma, values, cl_elements}
use jrpxy.HttpMessage.Header.Decides.{framing-length, framing-chunked, framing-no_framing}
use jrpxy.HttpMessage.Heads.{framing_field}

-- The fields that the writers keep when they replace the framing.
abbrev pub unframed : List Field → List Field
unframed fs = keep_if (λ f. not (is_framing_header f.0)) fs

-- What the recipient is to read.
abbrev pub announced : WriteFraming → ParsedFraming
announced (length l) = ParsedFraming.length l
announced chunked = ParsedFraming.chunked
announced preserve_framing = no_framing
announced strip_framing = no_framing

abbrev pub Fits : WriteFraming → Type 0
Fits (length l) = l ≤ u64_max
Fits _ = Unit

framing_header-values :
    (f : Field) → is_framing_header f.0 ≡ false → (is_cl f ≡ false) × (is_te f ≡ false)
unfolding is_framing_header
framing_header-values f h = ground (
  arith,
  eq_ignore_ascii_case_comm f.0 (codes "content-length"),
  eq_ignore_ascii_case_comm f.0 (codes "transfer-encoding"),
)

values-unframed :
    (fs ys : List Field)
    → (values is_cl (unframed fs ++ ys) ≡ values is_cl ys)
      × (values is_te (unframed fs ++ ys) ≡ values is_te ys)
      × (cl_elements (unframed fs ++ ys) ≡ cl_elements ys)
values-unframed [] ys = (refl, refl, refl)
values-unframed (f ∷ fs) ys = elim (Bool-cases (is_framing_header f.0)) [
  | inl h ↦ rw h (values-unframed fs ys)
  | inr h ↦
      let (cl, te) = framing_header-values f h in
      let (a, b, c) = values-unframed fs ys in rw h (rw cl a, rw te b, rw cl c)
]

digit-not_ows : (b : ℕ) → is_ascii_digit b ≡ true → (is_ows b ≡ false) × (is_comma b ≡ false)
unfolding is_ascii_digit is_ows
digit-not_ows b h = ground arith

digits-ends : (bs : Bytes) → all is_ascii_digit bs ≡ true → ends_blank bs ≡ false
digits-ends [] h = refl
digits-ends (b ∷ []) h = (digit-not_ows b (ground arith)).0
digits-ends (b ∷ c ∷ bs) h = digits-ends (c ∷ bs) (ground arith)

digits-starts : (bs : Bytes) → all is_ascii_digit bs ≡ true → starts_blank bs ≡ false
digits-starts [] h = refl
digits-starts (b ∷ bs) h = (digit-not_ows b (ground arith)).0

pub trimmed_lem : (v : Bytes) → IsTrimmed v → trim_ows v ≡ v
trimmed_lem v t = ap trim_ows (sym (append-nil v)) ∙ trim_ows-surround [] v [] refl refl t

trim-digits : (bs : Bytes) → all is_ascii_digit bs ≡ true → trim_ows bs ≡ bs
trim-digits bs h = trimmed_lem bs (digits-starts bs h, digits-ends bs h)

split-digits : (bs : Bytes) → all is_ascii_digit bs ≡ true → split is_comma bs ≡ bs ∷ []
split-digits [] h = refl
split-digits (b ∷ bs) h = ground (arith, digit-not_ows b, split-digits bs)

length_elements :
    (l : ℕ)
    → cl_elements ((codes "content-length", to_decimal l) ∷ []) ≡ (to_decimal l, to_decimal l) ∷ []
unfolding eq_ignore_ascii_case
length_elements l =
    let digits = to_decimal_digits l in
    rw (trim-digits (to_decimal l) digits, split-digits (to_decimal l) digits)
      (rw (trim-digits (to_decimal l) digits) refl)

-- Whatever fields the message came with: the fields that are written when its framing is replaced are read
-- by `framing` as the framing chosen by the writer. A length must fit 64 bits.
pub framing-written :
    (fs : List Field) (f : WriteFraming)
    → Fits f
    → framing (record { headers = unframed fs ++ framing_field f }) ≡ ok (announced f)
unfolding eq_ignore_ascii_case trim_ows is_ows
framing-written fs (length l) le =
    let (cl, te, es) = values-unframed fs (framing_field (length l)) in
    (framing-length (record { headers = unframed fs ++ framing_field (length l) }) l).1 (
      (λ none. cc (cl, none)),
      te,
      rw (es, length_elements l) ((to_decimal_digits l, parse_u64-to_decimal l le), tt),
    )
framing-written fs chunked le =
    let (cl, te, es) = values-unframed fs (framing_field chunked) in
    (framing-chunked (record { headers = unframed fs ++ framing_field chunked })).1
      (cl, codes "chunked", te, (codes "chunked", refl, refl))
framing-written fs preserve_framing le =
    let (cl, te, es) = values-unframed fs [] in
    (framing-no_framing (record { headers = unframed fs ++ [] })).1 (cl, te)
framing-written fs strip_framing le =
    let (cl, te, es) = values-unframed fs [] in
    (framing-no_framing (record { headers = unframed fs ++ [] })).1 (cl, te)
