-- ===== src/Util/Parse.antt =====
-- util/src/parse.rs: the tests on names, values and targets, the trimming of optional whitespace,
-- and the check of an origin-form request-target. Slices are lists; `value[a..]` is `drop a value`.
pub mod Tables
pub mod Classes
pub mod Trim
pub mod OriginForm
use jrpxy.Prelude.{
  ℕ, ◌+◌, ◌-◌, Bool, true, false, not, ◌&&◌, ◌||◌, List, [], ◌∷◌, none, some, Bytes, ◌==◌,
  if◌then◌else◌, is_empty, all, position, rposition, unwrap_or, take, drop, Result, ok, err,
  is_ascii_hexdigit,
}
use Tables.{is_valid_tchar, is_valid_field_vchar, is_valid_path_query_char}

unfoldable pub is_valid_field_name : Bytes → Bool
is_valid_field_name name = not (is_empty name) && all is_valid_tchar name

unfoldable pub is_valid_field_value : Bytes → Bool
is_valid_field_value value = all (λ b. is_valid_field_vchar b || b == b' ' || b == b'\t') value

unfoldable pub is_valid_request_target : Bytes → Bool
is_valid_request_target target = not (is_empty target) && all is_valid_field_vchar target

-- The closure `is_ows`.
unfoldable pub is_ows : ℕ → Bool
is_ows b = b == b' ' || b == b'\t'

abbrev pub is_not_ows : ℕ → Bool
is_not_ows b = not (is_ows b)

unfoldable pub trim_ows : Bytes → Bytes
trim_ows value = elim (position is_not_ows value) [
  | none ↦ []
  | some start ↦
      let end = unwrap_or (rposition is_not_ows value) start in
      take (end + 1 - start) (drop start value)
]

pub data OriginFormError : Type 0 where
  empty not_absolute_path : OriginFormError
  invalid_character : ℕ → ℕ → OriginFormError
  invalid_percent_encoding : ℕ → OriginFormError

-- The `while` loop. Its state is `i`, and the list is `path[i..]`; `i += 3` drops the two digits.
-- The last clause has fewer than two bytes behind `b`, where `path.get` returns `None`.
validate_from : ℕ → Bytes → Result Unit OriginFormError
validate_from i [] = ok tt
validate_from i (b ∷ h1 ∷ h2 ∷ rest) =
    let next = validate_from (i + 1) (h1 ∷ h2 ∷ rest) in
    let after = validate_from (i + 3) rest in
    if is_valid_path_query_char b
    then next
    else if b == b'%'
    then (if is_ascii_hexdigit h1 && is_ascii_hexdigit h2
        then after
        else err (invalid_percent_encoding i))
    else err (invalid_character i b)
validate_from i (b ∷ short) =
    let next = validate_from (i + 1) short in
    if is_valid_path_query_char b
    then next
    else if b == b'%'
    then err (invalid_percent_encoding i)
    else err (invalid_character i b)

unfoldable pub validate_origin_form : Bytes → Result Unit OriginFormError
unfolding validate_from
validate_origin_form [] = err empty
validate_origin_form (b ∷ rest) =
    if not (b == b'/') then err not_absolute_path else validate_from 1 rest
