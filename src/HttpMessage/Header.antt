-- ===== src/HttpMessage/Header.antt =====
-- http-message/src/header.rs: the header set and its operations. An iterator is the list of what
-- it yields. `String::from_utf8_lossy` only renders an error, so the errors carry the bytes.
pub mod Fields
pub mod Folds
pub mod Framed
pub mod Codings
pub mod Decides
use jrpxy.Prelude.{
  ℕ, zero, suc, ◌+◌, Bool, true, false, not, ◌&&◌, List, [], ◌∷◌, ◌++◌, Option, none, some, Bytes,
  codes, ◌==◌, if◌then◌else◌, is_empty, all, keep_if, length, split, Result, ok, err, ◌>>=◌, ◌>>◌,
  is_ascii_digit, eq_ignore_ascii_case, parse_u64,
}
use jrpxy.Util.Parse.{is_valid_field_name, is_valid_field_value, trim_ows}
use jrpxy.HttpMessage.Framing.{ParsedFraming}
use jrpxy.HttpMessage.Framing

pub data HeaderError : Type 0 where
  invalid_content_length : Bytes → HeaderError
  conflicting_content_length : ℕ → ℕ → HeaderError
  multiple_transfer_encoding_headers : HeaderError
  unsupported_transfer_encoding : Bytes → HeaderError
  both_te_and_cl : HeaderError

pub data FieldError : Type 0 where
  invalid_name invalid_value : FieldError

-- A name and its value.
abbrev pub Field : Type 0
Field = Bytes × Bytes

pub record Headers : Type 0 where
  pub headers : List Field

-- `Headers::default` and `Headers::with_capacity`
abbrev pub new : Headers
new = record { headers = [] }

unfoldable pub push_raw : Headers → Bytes → Bytes → Headers
push_raw h name value = record { headers = h.headers ++ ((name, value) ∷ []) }

unfoldable pub push : Headers → Bytes → Bytes → Result Headers FieldError
unfolding push_raw
push h name value =
    if not (is_valid_field_name name)
    then err invalid_name
    else if not (is_valid_field_value value)
    then err invalid_value
    else ok (push_raw h name value)

unfoldable pub filter_headers : (Bytes → Bytes → Bool) → Headers → List Field
filter_headers predicate h = keep_if (λ f. predicate f.0 f.1) h.headers

unfoldable pub get_header : Headers → Bytes → List Field
get_header h name = keep_if (λ f. eq_ignore_ascii_case name f.0) h.headers

unfoldable pub retain : (Field → Bool) → Headers → Headers
retain pred h = record { headers = keep_if pred h.headers }

-- The loop of `remove`; the first list of the result is `keep`, the second `remove`.
partition : (Field → Bool) → List Field → List Field → List Field → List Field × List Field
partition pred [] keep removed = (keep, removed)
partition pred (p ∷ rest) keep removed =
    partition pred rest (if pred p then keep else keep ++ p ∷ [])
      (if pred p then removed ++ p ∷ [] else removed)

-- What stays in `self`, and what is returned.
unfoldable pub remove : (Field → Bool) → Headers → Headers × Headers
unfolding partition
remove pred h =
    let (keep, removed) = partition pred h.headers [] [] in
    (record { headers = keep }, record { headers = removed })

unfoldable pub merge : Headers → Headers → Headers
merge h other = record { headers = h.headers ++ other.headers }

-- The variables of the loop in `framing`.
pub record Scan : Type 0 where
  pub cl : Option ℕ
  pub te_headers : ℕ
  pub te_value : Option Bytes

agree : Option ℕ → ℕ → Result (Option ℕ) HeaderError
agree none v = ok (some v)
agree (some old) v = if not (old == v) then err (conflicting_content_length old v) else ok (some v)

parsed : Bytes → Option ℕ → Option ℕ → Result (Option ℕ) HeaderError
parsed value none cl = err (invalid_content_length value)
parsed value (some v) cl = agree cl v

-- One element of a Content-Length list. What is all digits is UTF-8, so `from_utf8` succeeds.
pub scan_length : Bytes → Bytes → Option ℕ → Result (Option ℕ) HeaderError
unfolding agree parsed
scan_length value trimmed cl =
    if not (all is_ascii_digit trimmed)
    then err (invalid_content_length trimmed)
    else parsed value (parse_u64 trimmed) cl

scan_lengths : Bytes → List Bytes → Option ℕ → Result (Option ℕ) HeaderError
unfolding scan_length
scan_lengths value [] cl = ok cl
scan_lengths value (raw ∷ rest) cl = do
  cl' ← scan_length value (trim_ows raw) cl
  scan_lengths value rest cl'

-- The body of the loop over the header fields.
scan_field : Field → Scan → Result Scan HeaderError
scan_field (name, value) s =
    if eq_ignore_ascii_case name (codes "content-length")
    then (do
      cl ← scan_lengths (trim_ows value) (split (λ b. b == b',') (trim_ows value)) s.cl
      ok (record s { cl = cl }))
    else if eq_ignore_ascii_case name (codes "transfer-encoding")
    then ok (record s { te_headers = s.te_headers + 1; te_value = some value })
    else ok s

scan_fields : List Field → Scan → Result Scan HeaderError
unfolding scan_field scan_lengths
scan_fields [] s = ok s
scan_fields (f ∷ rest) s = do s' ← scan_field f s; scan_fields rest s'

-- The loop of `ensure_sole_chunked_coding`.
count_codings : List Bytes → ℕ → Result ℕ HeaderError
count_codings [] n = ok n
count_codings (raw ∷ rest) n =
    let coding = trim_ows raw in
    let skipped = count_codings rest n in
    let counted = count_codings rest (n + 1) in
    if is_empty coding
    then skipped
    else if not (eq_ignore_ascii_case coding (codes "chunked"))
    then err (unsupported_transfer_encoding coding)
    else counted

pub ensure_sole_chunked_coding : Bytes → Result Unit HeaderError
unfolding count_codings
ensure_sole_chunked_coding value = do
  chunked_count ← count_codings (split (λ b. b == b',') value) 0
  if not (chunked_count == 1) then err (unsupported_transfer_encoding (trim_ows value)) else ok tt

-- `te_value.expect(…)`: the value is there whenever a header was counted (`scan_fields-closed` in
-- Header/Framed), so the empty value stands for a panic that does not happen.
abbrev expect_value : Option Bytes → Bytes
expect_value none = []
expect_value (some value) = value

te_present : ℕ → Option Bytes → Result Bool HeaderError
te_present zero te_value = ok false
te_present (suc zero) te_value = do ensure_sole_chunked_coding (expect_value te_value); ok true
te_present _ te_value = err multiple_transfer_encoding_headers

-- The final `match (cl, te)`.
pub framing_of : Option ℕ → Bool → Result ParsedFraming HeaderError
framing_of none true = ok ParsedFraming.chunked
framing_of none false = ok ParsedFraming.no_framing
framing_of (some cl) true = err both_te_and_cl
framing_of (some cl) false = ok (ParsedFraming.length cl)

unfoldable pub framing : Headers → Result ParsedFraming HeaderError
unfolding scan_fields te_present ensure_sole_chunked_coding framing_of
framing h = do
  s ← scan_fields h.headers (record { cl = none; te_headers = 0; te_value = none })
  te ← te_present s.te_headers s.te_value
  framing_of s.cl te
