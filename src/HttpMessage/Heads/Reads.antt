-- ===== src/HttpMessage/Heads/Reads.antt =====
-- A reader of heads, apart from the program, and the round trip of the heads that the program writes. It
-- reads lines that end with CRLF; a value loses the whitespace round it (RFC 9112 section 5).
use jrpxy.Prelude.{
  ℕ, zero, suc, ◌<◌, Bool, true, false, not, ◌&&◌, List, [], ◌∷◌, ◌++◌, Option, none, some, Bytes,
  codes, All, ◌==◌, ◌≡◌, refl, ap, ◌∙◌, arith, if◌then◌else◌, all, length, append_assoc, Bool-cases,
  inl, inr,
}
use jrpxy.Util.Parse.{trim_ows, is_valid_field_name, is_valid_field_value, is_ows}
use jrpxy.Util.Parse.Tables.{is_valid_tchar, is_valid_field_vchar}
use jrpxy.Util.Parse.Classes.{tchar_vchar}
use jrpxy.Util.Parse.Trim.{trim_ows-Trims, trim_ows-surround}
use jrpxy.HttpMessage.Header.{Field}
use jrpxy.HttpMessage.Builder.Valid.{IsValidField}
use jrpxy.HttpMessage.Heads.{crlf, field_lines, head_bytes}

-- The line before the first CRLF, and what follows that.
abbrev ends_line : ℕ → Bytes → Bool
ends_line b [] = false
ends_line b (c ∷ r) = b == b'\r' && c == b'\n'

abbrev tail : Bytes → Bytes
tail [] = []
tail (b ∷ r) = r

unfoldable pub read_line : Bytes → Option (Bytes × Bytes)
read_line [] = none
read_line (b ∷ r) =
    if ends_line b r
    then some ([], tail r)
    else elim (read_line r) [ none ↦ none | some (line, rest) ↦ some (b ∷ line, rest) ]

-- A name up to the first colon, and the value.
unfoldable pub read_field : Bytes → Option Field
read_field [] = none
read_field (b ∷ r) =
    if b == b':'
    then some ([], trim_ows r)
    else elim (read_field r) [ none ↦ none | some (name, value) ↦ some (b ∷ name, value) ]

-- Fields up to the empty line. The number bounds the lines.
unfoldable pub read_fields : ℕ → Bytes → Option (List Field × Bytes)
read_fields zero bs = none
read_fields (suc k) bs = elim (read_line bs) [
  | none ↦ none
  | some ([], rest) ↦ some ([], rest)
  | some (b ∷ line, rest) ↦ elim (read_field (b ∷ line)) [
    | none ↦ none
    | some f ↦ elim (read_fields k rest) [ none ↦ none | some (fs, rest') ↦ some (f ∷ fs, rest') ]
  ]
]

-- The start line, the fields, and what follows the head.
unfoldable pub read_head : ℕ → Bytes → Option (Bytes × List Field × Bytes)
read_head k bs = elim (read_line bs) [
  | none ↦ none
  | some (start, rest) ↦ elim (read_fields k rest) [
    | none ↦ none
    | some (fs, rest') ↦ some (start, fs, rest')
  ]
]

abbrev pub not_cr : ℕ → Bool
not_cr b = not (b == b'\r')

pub read_line-crlf :
    (line rest : Bytes)
    → all not_cr line ≡ true
    → read_line (line ++ (crlf ++ rest)) ≡ some (line, rest)
unfolding read_line
read_line-crlf [] rest h = refl
read_line-crlf (b ∷ line) rest h = ground (arith, read_line-crlf line rest)

colon-not_tchar : (b : ℕ) → is_valid_tchar b ≡ true → (b == b':') ≡ false
colon-not_tchar b h = elim (Bool-cases (b == b':')) [
  | inr e ↦ e
  | inl e ↦
      let is : b ≡ b':' = ground arith in
      let bad : is_valid_tchar b':' ≡ true = rw (← is) h in absurd (unfold is_valid_tchar in cc bad)
]

vchar-not_cr : (b : ℕ) → is_valid_field_vchar b ≡ true → not_cr b ≡ true
vchar-not_cr b h = elim (Bool-cases (b == b'\r')) [
  | inr e ↦ rw e
  | inl e ↦
      let is : b ≡ b'\r' = ground arith in
      let bad : is_valid_field_vchar b'\r' ≡ true = rw (← is) h in
      absurd (unfold is_valid_field_vchar in cc bad)
]

pub vchars-not_cr : (bs : Bytes) → all is_valid_field_vchar bs ≡ true → all not_cr bs ≡ true
vchars-not_cr [] h = refl
vchars-not_cr (b ∷ bs) h = ground (arith, vchar-not_cr b, vchars-not_cr bs)

pub tchars-not_cr : (bs : Bytes) → all is_valid_tchar bs ≡ true → all not_cr bs ≡ true
tchars-not_cr [] h = refl
tchars-not_cr (b ∷ bs) h = ground (arith, tchar_vchar b, vchar-not_cr b, tchars-not_cr bs)

value-not_cr : (v : Bytes) → is_valid_field_value v ≡ true → all not_cr v ≡ true
unfolding is_valid_field_value
value-not_cr [] h = refl
value-not_cr (b ∷ v) h = ground (arith, vchar-not_cr b, value-not_cr v)

trim-space : (v : Bytes) → trim_ows (b' ' ∷ v) ≡ trim_ows v
trim-space v =
    let t = trim_ows-Trims v in
    ap (λ (x : Bytes). trim_ows (b' ' ∷ x)) t.splits
    ∙ trim_ows-surround (b' ' ∷ t.before) (trim_ows v) t.behind (unfold is_ows in t.before_blank)
        t.behind_blank t.trimmed

read_field_lem :
    (n v : Bytes)
    → all is_valid_tchar n ≡ true
    → read_field (n ++ (codes ": " ++ v)) ≡ some (n, trim_ows v)
unfolding read_field
read_field_lem [] v h = rw (trim-space v) refl
read_field_lem (b ∷ n) v h = ground (arith, colon-not_tchar b, read_field_lem n v)

line-not_cr :
    (n v : Bytes)
    → all not_cr n ≡ true
    → all not_cr v ≡ true
    → all not_cr (n ++ (codes ": " ++ v)) ≡ true
line-not_cr [] v h k = k
line-not_cr (b ∷ n) v h k = ground (arith, line-not_cr n v)

abbrev pub trimmed_values : List Field → List Field
trimmed_values [] = []
trimmed_values ((n, v) ∷ fs) = (n, trim_ows v) ∷ trimmed_values fs

read_fields-cons :
    (k b : ℕ) (line rest bs : Bytes) (f : Field) (fs : List Field) (rest' : Bytes)
    → read_line bs ≡ some (b ∷ line, rest)
    → read_field (b ∷ line) ≡ some f
    → read_fields k rest ≡ some (fs, rest')
    → read_fields (suc k) bs ≡ some (f ∷ fs, rest')
unfolding read_fields
read_fields-cons k b line rest bs f fs rest' p q r = rw (p, read_fields) (rw (q, r) refl)

one_line : (n v more : Bytes) → n ++ (codes ": " ++ (v ++ more)) ≡ (n ++ (codes ": " ++ v)) ++ more
one_line [] v more = refl
one_line (b ∷ n) v more = ap (◌∷◌ b) (one_line n v more)

name_tchars : (n : Bytes) → is_valid_field_name n ≡ true → all is_valid_tchar n ≡ true
unfolding is_valid_field_name
name_tchars [] h = refl
name_tchars (b ∷ n) h = h

read_fields-cons_field :
    (k : ℕ) (n v more : Bytes) (fs : List Field) (rest : Bytes)
    → IsValidField (n, v)
    → read_fields k more ≡ some (fs, rest)
    → read_fields (suc k) (n ++ (codes ": " ++ (v ++ (crlf ++ more))))
      ≡ some ((n, trim_ows v) ∷ fs, rest)
read_fields-cons_field k [] v more fs rest (name, value) r =
    absurd (unfold is_valid_field_name in cc name)
read_fields-cons_field k (b ∷ n) v more fs rest (name, value) r =
    let tchars = name_tchars (b ∷ n) name in
    read_fields-cons k b (n ++ (codes ": " ++ v)) more _ ((b ∷ n), trim_ows v) fs rest
      (ap read_line (one_line (b ∷ n) v (crlf ++ more))
        ∙ read_line-crlf (b ∷ n ++ (codes ": " ++ v)) more
            (line-not_cr (b ∷ n) v (tchars-not_cr (b ∷ n) tchars) (value-not_cr v value)))
      (read_field_lem (b ∷ n) v tchars) r

pub read_fields_lem :
    (k : ℕ) (fs : List Field) (rest : Bytes)
    → All IsValidField fs
    → length fs < k
    → read_fields k (field_lines fs ++ (crlf ++ rest)) ≡ some (trimmed_values fs, rest)
unfolding read_fields read_line
read_fields_lem zero fs rest h lt = absurd (omega (arith, lt))
read_fields_lem (suc k) [] rest h lt = refl
read_fields_lem (suc k) ((n, v) ∷ fs) rest h lt =
    ap (read_fields (suc k)) {x = field_lines ((n, v) ∷ fs) ++ (crlf ++ rest)}
      {y = n ++ (codes ": " ++ (v ++ (crlf ++ (field_lines fs ++ (crlf ++ rest)))))}
      (simp append_assoc)
    ∙ read_fields-cons_field k n v (field_lines fs ++ (crlf ++ rest)) (trimmed_values fs) rest h.0
        (read_fields_lem k fs rest h.1 (omega (arith, lt)))

-- A head reads back as what was written, whatever follows it: the start line, if it has no CR, the fields
-- in order with the whitespace round their values taken off, if `push` accepts them, and the rest. The bound on
-- the lines has to exceed the number of fields.
pub read_head-head_bytes :
    (k : ℕ) (start : Bytes) (fs : List Field) (rest : Bytes)
    → all not_cr start ≡ true
    → All IsValidField fs
    → length fs < k
    → read_head k (head_bytes start fs ++ rest) ≡ some (start, trimmed_values fs, rest)
unfolding read_head
read_head-head_bytes k start fs rest h valid lt =
    let shape : head_bytes start fs ++ rest
        ≡ start ++ (crlf ++ (field_lines fs ++ (crlf ++ rest))) =
      simp append_assoc in
    rw (shape, read_line-crlf start (field_lines fs ++ (crlf ++ rest)) h, read_head)
      (rw (read_fields_lem k fs rest valid lt) refl)
