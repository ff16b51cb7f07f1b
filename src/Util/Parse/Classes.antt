-- ===== src/Util/Parse/Classes.antt =====
-- util/src/parse.rs: what the lookup tables hold, and what the tests built on them let through.
use jrpxy.Prelude.{
  sym, ◌∙◌, Bool-cases, inl, inr, ℕ, zero, suc, ◌<◌, Bool, true, false, not, ◌&&◌, ◌||◌, ◌≡◌, refl,
  arith, Bytes, codes, leb, ◌==◌, any, is_ascii_alphanumeric,
}
use jrpxy.Util.Parse.Tables.{
  not_tchar, is_valid_tchar, is_valid_field_vchar, is_valid_path_query_char,
}

abbrev one_of : Bytes → ℕ → Bool
one_of chars b = any (λ c. b == c) chars

-- `tchar` of RFC 9110 section 5.6.2.
abbrev pub rfc_tchar : ℕ → Bool
rfc_tchar b = is_ascii_alphanumeric b || one_of (codes "!#$%&'*+-.^_`|~") b

-- `field-vchar` of RFC 9110 section 5.5: VCHAR or obs-text.
abbrev pub rfc_field_vchar : ℕ → Bool
rfc_field_vchar b = leb 0x21 b && leb b 0x7e || leb 0x80 b && leb b 0xff

-- `pchar`, `/` and `?` of RFC 3986, without `%`.
abbrev pub rfc_path_query_char : ℕ → Bool
rfc_path_query_char b = is_ascii_alphanumeric b || one_of (codes "-._~!$&'()*+,;=:@/?") b

abbrev same : Bool → Bool → Bool
same true b = b
same false b = not b

all_below : ℕ → (ℕ → Bool) → Bool
all_below zero p = true
all_below (suc n) p = p n && all_below n p

all_below_same :
    (n : ℕ) (f g : ℕ → Bool) (b : ℕ)
    → all_below n (λ x. same (f x) (g x)) ≡ true
    → b < n
    → f b ≡ g b
unfolding all_below
all_below_same zero f g b h lt = absurd (omega arith)
all_below_same (suc n) f g b h lt = ground (arith, all_below_same n f g b)

tchar_table : all_below 256 (λ b. same (is_valid_tchar b) (rfc_tchar b)) ≡ true
unfolding all_below is_valid_tchar is_ascii_alphanumeric
tchar_table = refl

field_vchar_table : all_below 256 (λ b. same (is_valid_field_vchar b) (rfc_field_vchar b)) ≡ true
unfolding all_below is_valid_field_vchar
field_vchar_table = refl

path_query_char_table :
    all_below 256 (λ b. same (is_valid_path_query_char b) (rfc_path_query_char b)) ≡ true
unfolding all_below is_valid_path_query_char is_ascii_alphanumeric
path_query_char_table = refl

-- Each of the three lookup tables, at every byte, says what the grammar of the RFCs says: `tchar`,
-- `field-vchar`, and the bytes of a path and query other than `%`.
pub lookups-eq-rfc :
    (b : ℕ)
    → b < 256
    → (is_valid_tchar b ≡ rfc_tchar b)
      × (is_valid_field_vchar b ≡ rfc_field_vchar b)
      × (is_valid_path_query_char b ≡ rfc_path_query_char b)
lookups-eq-rfc b h = (
  all_below_same 256 is_valid_tchar rfc_tchar b tchar_table h,
  all_below_same 256 is_valid_field_vchar rfc_field_vchar b field_vchar_table h,
  all_below_same 256 is_valid_path_query_char rfc_path_query_char b path_query_char_table h,
)

tchar_below : (b : ℕ) → is_valid_tchar b ≡ true → b < 256
tchar_below b h = elim (Bool-cases (leb 256 b)) [
  | inl e ↦ let beyond : is_valid_tchar b ≡ false = not_tchar b (ground arith) in cc
  | inr e ↦ ground arith
]

all_below_at : (n : ℕ) (p : ℕ → Bool) (b : ℕ) → all_below n p ≡ true → b < n → p b ≡ true
unfolding all_below
all_below_at zero p b h lt = absurd (omega arith)
all_below_at (suc n) p b h lt = ground (arith, all_below_at n p b)

tchar_vchar_table : all_below 256 (λ b. not (is_valid_tchar b) || is_valid_field_vchar b) ≡ true
unfolding all_below is_valid_tchar is_valid_field_vchar
tchar_vchar_table = refl

-- A token byte may stand in a field value.
pub tchar_vchar : (b : ℕ) → is_valid_tchar b ≡ true → is_valid_field_vchar b ≡ true
tchar_vchar b h =
    sym (rw h refl)
    ∙ all_below_at 256 (λ x. not (is_valid_tchar x) || is_valid_field_vchar x) b tchar_vchar_table
        (tchar_below b h)
