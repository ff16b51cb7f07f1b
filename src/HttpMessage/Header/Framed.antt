-- ===== src/HttpMessage/Header/Framed.antt =====
-- http-message/src/header.rs: `framing` taken apart into a pass over the elements of the
-- Content-Length fields and a look at the values of the Transfer-Encoding fields.
use jrpxy.Prelude.{
  ℕ, suc, ◌+◌, Bool, true, false, List, [], ◌∷◌, ◌++◌, Option, none, some, Bytes, codes, ◌==◌, ◌≡◌,
  refl, sym, ap, ◌∙◌, arith, Bool-cases, inl, inr, if◌then◌else◌, length, split, Result, ok, err,
  ◌>>=◌, ◌>>◌, bind_ext, bind_assoc, eq_ignore_ascii_case,
}
use jrpxy.Util.Parse.{trim_ows}
use jrpxy.HttpMessage.Header.{
  HeaderError, Field, Headers, Scan, scan_length, scan_lengths, scan_field, scan_fields, framing,
  framing_of, te_present, ensure_sole_chunked_coding, multiple_transfer_encoding_headers,
}

abbrev pub is_cl : Field → Bool
is_cl f = eq_ignore_ascii_case f.0 (codes "content-length")

abbrev pub is_te : Field → Bool
is_te f = eq_ignore_ascii_case f.0 (codes "transfer-encoding")

-- No name is both.
not_both :
    (name : Bytes)
    → eq_ignore_ascii_case name (codes "content-length") ≡ true
    → eq_ignore_ascii_case name (codes "transfer-encoding") ≡ false
unfolding eq_ignore_ascii_case
not_both [] h = refl
not_both (c ∷ r) h = ground arith

abbrev pub is_comma : ℕ → Bool
is_comma b = b == b','

abbrev pub tagged : Bytes → List Bytes → List Field
tagged value [] = []
tagged value (raw ∷ rest) = (value, trim_ows raw) ∷ tagged value rest

-- The list elements of every Content-Length field, in order, each behind the value it stands in.
abbrev pub cl_elements : List Field → List Field
cl_elements [] = []
cl_elements (f ∷ fs) =
    if is_cl f
    then tagged (trim_ows f.1) (split is_comma (trim_ows f.1)) ++ cl_elements fs
    else cl_elements fs

-- The values of the fields that satisfy `p`.
abbrev pub values : (Field → Bool) → List Field → List Bytes
values p [] = []
values p (f ∷ fs) = if p f then f.1 ∷ values p fs else values p fs

abbrev last_or : List Bytes → Option Bytes → Option Bytes
last_or [] d = d
last_or (v ∷ vs) d = last_or vs (some v)

unfoldable pub read_all : List Field → Option ℕ → Result (Option ℕ) HeaderError
read_all [] cl = ok cl
read_all (e ∷ es) cl = do c ← scan_length e.0 e.1 cl; read_all es c

abbrev with_te : List Bytes → Scan → Option ℕ → Result Scan HeaderError
with_te vs s c =
    ok (record { cl = c; te_headers = s.te_headers + length vs; te_value = last_or vs s.te_value })

read_all-append :
    (xs ys : List Field) (cl : Option ℕ) → read_all (xs ++ ys) cl ≡ (read_all xs cl >>= read_all ys)
unfolding read_all
read_all-append [] ys cl = refl
read_all-append (x ∷ xs) ys cl =
    bind_ext (scan_length x.0 x.1 cl) (λ c. read_all-append xs ys c)
    ∙ sym (bind_assoc (scan_length x.0 x.1 cl) (read_all xs) (read_all ys))

scan_lengths-read_all :
    (value : Bytes) (raws : List Bytes) (cl : Option ℕ)
    → scan_lengths value raws cl ≡ read_all (tagged value raws) cl
unfolding scan_lengths read_all
scan_lengths-read_all value [] cl = refl
scan_lengths-read_all value (raw ∷ raws) cl =
    bind_ext (scan_length value (trim_ows raw) cl) (λ c. scan_lengths-read_all value raws c)

with_te-cons :
    (v : Bytes) (vs : List Bytes) (s : Scan) (c : Option ℕ)
    → with_te vs (record s { te_headers = s.te_headers + 1; te_value = some v }) c
      ≡ with_te (v ∷ vs) s c
with_te-cons v vs s c =
    let count : s.te_headers + 1 + length vs ≡ s.te_headers + suc (length vs) = omega arith in
    rw count

with_te-nil : (s : Scan) → with_te [] s s.cl ≡ ok s
with_te-nil s =
    let count : s.te_headers + 0 ≡ s.te_headers = omega arith in
    ap (λ n. ok (record s { te_headers = n })) count

-- A Content-Length field, then the rest.
scan_cl :
    (value : Bytes) (raws : List Bytes) (es : List Field) (vs : List Bytes) (s : Scan)
    (k : Scan → Result Scan HeaderError)
    → ((c : Option ℕ) → k (record s { cl = c }) ≡ (read_all es c >>= with_te vs s))
    → ((scan_lengths value raws s.cl >>= λ c. ok (record s { cl = c })) >>= k)
      ≡ (read_all (tagged value raws ++ es) s.cl >>= with_te vs s)
scan_cl value raws es vs s k h =
    bind_assoc (scan_lengths value raws s.cl) (λ c. ok (record s { cl = c })) k
    ∙ rw (scan_lengths-read_all value raws s.cl, read_all-append (tagged value raws) es s.cl)
        (bind_ext (read_all (tagged value raws) s.cl) h
          ∙ sym (bind_assoc (read_all (tagged value raws) s.cl) (read_all es) (with_te vs s)))

-- The scan of the fields, with the lengths and the codings taken apart.
scan_fields-closed :
    (fs : List Field) (s : Scan)
    → scan_fields fs s ≡ (read_all (cl_elements fs) s.cl >>= with_te (values is_te fs) s)
unfolding scan_fields
scan_fields-closed [] s = unfold read_all in sym (with_te-nil s)
scan_fields-closed (f ∷ fs) s = elim (Bool-cases (is_cl f)) [
  | inl c ↦
      rw (c, not_both f.0 c, scan_field)
        (scan_cl (trim_ows f.1) (split is_comma (trim_ows f.1)) (cl_elements fs) (values is_te fs) s
          (scan_fields fs) (λ c'. scan_fields-closed fs (record s { cl = c' })))
  | inr c ↦ elim (Bool-cases (is_te f)) [
    | inl t ↦
        rw (c, t)
          (scan_fields-closed fs _
            ∙ bind_ext (read_all (cl_elements fs) s.cl) (with_te-cons f.1 (values is_te fs) s))
    | inr t ↦ rw (c, t) (scan_fields-closed fs s)
  ]
]

-- What the Transfer-Encoding values amount to.
abbrev pub te_of : List Bytes → Result Bool HeaderError
te_of [] = ok false
te_of (v ∷ []) = do ensure_sole_chunked_coding v; ok true
te_of (v ∷ w ∷ vs) = err multiple_transfer_encoding_headers

te_present-te_of : (vs : List Bytes) → te_present (0 + length vs) (last_or vs none) ≡ te_of vs
unfolding te_present
te_present-te_of [] = refl
te_present-te_of (v ∷ []) = refl
te_present-te_of (v ∷ w ∷ vs) =
    let two : 0 + suc (suc (length vs)) ≡ suc (suc (length vs)) = omega arith in rw two

pub framing_lem :
    (h : Headers)
    → framing h ≡ (
        read_all (cl_elements h.headers) none >>= λ c.
        te_of (values is_te h.headers) >>= λ te. framing_of c te)
unfolding framing
framing_lem h = rw scan_fields-closed (
    bind_assoc (read_all (cl_elements h.headers) none) _ _
    ∙ bind_ext (read_all (cl_elements h.headers) none)
        (λ c. ap (λ r. r >>= framing_of c) (te_present-te_of (values is_te h.headers))))
