-- ===== src/Util/Parse/OriginForm.antt =====
-- util/src/parse.rs: `validate_origin_form` against the grammar of an origin-form request-target.
use jrpxy.Prelude.{
  ℕ, suc, ◌+◌, Bool, true, false, ◌&&◌, ◌≡◌, ◌≢◌, ◌↔◌, refl, ap, ◌∙◌, arith, [], ◌∷◌, ◌++◌, Bytes,
  length, ok, err, is_ascii_hexdigit,
}
use jrpxy.Util.Parse.Tables.{is_valid_path_query_char}
use jrpxy.Util.Parse.{
  OriginFormError, invalid_character, invalid_percent_encoding, validate_from, validate_origin_form,
}

-- `*( pchar / "/" / "?" )`, where a `pchar` may be `"%" HEXDIG HEXDIG`.
pub data IsPathQuery : Bytes → Type 0 where
  stop : IsPathQuery []
  char :
      {b : ℕ} {r : Bytes} → is_valid_path_query_char b ≡ true → IsPathQuery r → IsPathQuery (b ∷ r)
  percent :
      {p h1 h2 : ℕ} {r : Bytes}
      → p ≡ b'%'
      → is_ascii_hexdigit h1 ≡ true
      → is_ascii_hexdigit h2 ≡ true
      → IsPathQuery r
      → IsPathQuery (p ∷ h1 ∷ h2 ∷ r)

-- `absolute-path [ "?" query ]`
pub data IsOriginForm : Bytes → Type 0 where
  slash : {b : ℕ} {r : Bytes} → b ≡ b'/' → IsPathQuery r → IsOriginForm (b ∷ r)

-- The constructors with their bytes explicit.
by_char :
    (b : ℕ) (r : Bytes) → is_valid_path_query_char b ≡ true → IsPathQuery r → IsPathQuery (b ∷ r)
by_char b r h t = char h t

by_percent :
    (p h1 h2 : ℕ) (r : Bytes)
    → p ≡ b'%'
    → is_ascii_hexdigit h1 ≡ true
    → is_ascii_hexdigit h2 ≡ true
    → IsPathQuery r
    → IsPathQuery (p ∷ h1 ∷ h2 ∷ r)
by_percent p h1 h2 r e a b t = percent e a b t

by_slash : (b : ℕ) (r : Bytes) → b ≡ b'/' → IsPathQuery r → IsOriginForm (b ∷ r)
by_slash b r e t = slash e t

percent_not_char : is_valid_path_query_char b'%' ≡ false
unfolding is_valid_path_query_char
percent_not_char = refl

validate_from-char :
    (i b : ℕ) (r : Bytes)
    → is_valid_path_query_char b ≡ true
    → validate_from i (b ∷ r) ≡ validate_from (i + 1) r
unfolding validate_from
validate_from-char i b [] h = rw h
validate_from-char i b (c ∷ []) h = rw h
validate_from-char i b (c ∷ d ∷ r) h = rw h

validate_from-percent :
    (i p h1 h2 : ℕ) (r : Bytes)
    → p ≡ b'%'
    → is_ascii_hexdigit h1 ≡ true
    → is_ascii_hexdigit h2 ≡ true
    → validate_from i (p ∷ h1 ∷ h2 ∷ r) ≡ validate_from (i + 3) r
unfolding validate_from
validate_from-percent i p h1 h2 r e a b = rw (e, percent_not_char, a, b)

validate_from_complete : {p : Bytes} (i : ℕ) → IsPathQuery p → validate_from i p ≡ ok tt
unfolding validate_from
validate_from_complete i stop = refl
validate_from_complete i (char {b} {r} h t) =
    validate_from-char i b r h ∙ validate_from_complete (i + 1) t
validate_from_complete i (percent {p} {h1} {h2} {r} e a b t) =
    validate_from-percent i p h1 h2 r e a b ∙ validate_from_complete (i + 3) t

validate_from_sound : (i : ℕ) (p : Bytes) → validate_from i p ≡ ok tt → IsPathQuery p
unfolding validate_from
validate_from_sound i [] h = stop
validate_from_sound i (b ∷ h1 ∷ h2 ∷ rest) h = ground (
  arith,
  validate_from_sound (i + 1) (h1 ∷ h2 ∷ rest),
  validate_from_sound (i + 3) rest,
  by_char b (h1 ∷ h2 ∷ rest),
  by_percent b h1 h2 rest,
)
validate_from_sound i (b ∷ short) h =
    ground (arith, validate_from_sound (i + 1) short, by_char b short)

-- `validate_origin_form` accepts a target exactly if it is in origin form.
pub validate_origin_form_iff :
    (path : Bytes) → (validate_origin_form path ≡ ok tt) ↔ IsOriginForm path
unfolding validate_origin_form
validate_origin_form_iff [] = (λ h. cc, λ o. elim o [ ])
validate_origin_form_iff (b ∷ r) = (accepts, λ o. accepted o refl)
  where
    accepts : validate_origin_form (b ∷ r) ≡ ok tt → IsOriginForm (b ∷ r)
    accepts h = ground (arith, validate_from_sound 1 r, by_slash b r)

    accepted : {p : Bytes} → IsOriginForm p → p ≡ b ∷ r → validate_origin_form p ≡ ok tt
    accepted (slash e t) q = ground (arith, validate_from_complete 1 t)

-- Two hexadecimal digits come first.
abbrev pub is_percent_pair : Bytes → Bool
is_percent_pair (h1 ∷ h2 ∷ rest) = is_ascii_hexdigit h1 && is_ascii_hexdigit h2
is_percent_pair _ = false

-- What stands at the place that an error names, `n` bytes in; `rest` begins there.
abbrev pub Refuses : OriginFormError → ℕ → Bytes → Type 0
Refuses (invalid_character o b) n (c ∷ r) =
    (o ≡ n) × (c ≡ b) × (is_valid_path_query_char c ≡ false) × (c ≢ b'%')
Refuses (invalid_percent_encoding o) n (c ∷ r) = (o ≡ n) × (c ≡ b'%') × (is_percent_pair r ≡ false)
Refuses _ n rest = ⊥

-- `path` splits where the check gives up: what stands before is well formed.
pub record BlamedAt (i : ℕ) (path : Bytes) (e : OriginFormError) : Type 0 where
  pub read : Bytes
  pub rest : Bytes
  pub splits : path ≡ read ++ rest
  pub well_formed : IsPathQuery read
  pub refuses : Refuses e (i + length read) rest

BlamedAt-here : (i : ℕ) (path : Bytes) (e : OriginFormError) → Refuses e i path → BlamedAt i path e
BlamedAt-here i path e h = record {
  read = [];
  rest = path;
  splits = refl;
  well_formed = stop;
  refuses = let same : i + 0 ≡ i = omega arith in rw same h;
}

BlamedAt-char :
    (i b : ℕ) (r : Bytes) (e : OriginFormError)
    → is_valid_path_query_char b ≡ true
    → BlamedAt (i + 1) r e
    → BlamedAt i (b ∷ r) e
BlamedAt-char i b r e h t = record {
  read = b ∷ t.read;
  rest = t.rest;
  splits = ap (◌∷◌ b) t.splits;
  well_formed = char h t.well_formed;
  refuses =
      let same : i + suc (length t.read) ≡ i + 1 + length t.read = omega arith in rw same t.refuses;
}

BlamedAt-percent :
    (i p h1 h2 : ℕ) (r : Bytes) (e : OriginFormError)
    → p ≡ b'%'
    → is_ascii_hexdigit h1 ≡ true
    → is_ascii_hexdigit h2 ≡ true
    → BlamedAt (i + 3) r e
    → BlamedAt i (p ∷ h1 ∷ h2 ∷ r) e
BlamedAt-percent i p h1 h2 r e q a b t = record {
  read = p ∷ h1 ∷ h2 ∷ t.read;
  rest = t.rest;
  splits = ap (λ s. p ∷ h1 ∷ h2 ∷ s) t.splits;
  well_formed = percent q a b t.well_formed;
  refuses =
      let same : i + suc (suc (suc (length t.read))) ≡ i + 3 + length t.read = omega arith in
      rw same t.refuses;
}

at_percent :
    (i b : ℕ) (r : Bytes) (e : OriginFormError)
    → invalid_percent_encoding i ≡ e
    → b ≡ b'%'
    → is_percent_pair r ≡ false
    → BlamedAt i (b ∷ r) e
at_percent i b r e h q p = BlamedAt-here i (b ∷ r) e (rw (← h) (refl, q, p))

at_character :
    (i b : ℕ) (r : Bytes) (e : OriginFormError)
    → invalid_character i b ≡ e
    → is_valid_path_query_char b ≡ false
    → b ≢ b'%'
    → BlamedAt i (b ∷ r) e
at_character i b r e h v q = BlamedAt-here i (b ∷ r) e (rw (← h) (refl, refl, v, q))

validate_from-BlamedAt :
    (i : ℕ) (p : Bytes) (e : OriginFormError) → validate_from i p ≡ err e → BlamedAt i p e
unfolding validate_from
validate_from-BlamedAt i [] e h = cc
validate_from-BlamedAt i (b ∷ h1 ∷ h2 ∷ rest) e h = ground (
  arith,
  at_character i b (h1 ∷ h2 ∷ rest) e,
  at_percent i b (h1 ∷ h2 ∷ rest) e,
  BlamedAt-char i b (h1 ∷ h2 ∷ rest) e,
  BlamedAt-percent i b h1 h2 rest e,
  validate_from-BlamedAt (i + 1) (h1 ∷ h2 ∷ rest) e,
  validate_from-BlamedAt (i + 3) rest e,
)
validate_from-BlamedAt i (b ∷ short) e h = ground (
  arith,
  at_character i b short e,
  at_percent i b short e,
  BlamedAt-char i b short e,
  validate_from-BlamedAt (i + 1) short e,
)

-- When `validate_origin_form` refuses a target that begins with `/`, the bytes between the slash and
-- the offset of the error are well formed, and at the offset stands what the error says: for
-- `invalid_character` the byte that it carries, which is neither a path or query byte nor `%`; for
-- `invalid_percent_encoding` a `%` with no two hexadecimal digits behind it.
pub validate_origin_form-BlamedAt :
    (r : Bytes) (e : OriginFormError) → validate_origin_form (b'/' ∷ r) ≡ err e → BlamedAt 1 r e
unfolding validate_origin_form
validate_origin_form-BlamedAt r e h = validate_from-BlamedAt 1 r e h
