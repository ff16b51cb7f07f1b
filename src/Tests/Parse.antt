-- ===== src/Tests/Parse.antt =====
-- util/src/parse.rs
use jrpxy.Prelude.{◌≡◌, ◌↔◌, refl, codes, ok, err, arith, is_ascii_hexdigit}
use jrpxy.Util.Parse.Tables.{is_valid_tchar, is_valid_field_vchar, is_valid_path_query_char}
use jrpxy.Util.Parse.{invalid_character, invalid_percent_encoding, trim_ows, validate_origin_form}
use jrpxy.Util.Parse.Classes.{rfc_tchar, rfc_field_vchar, rfc_path_query_char, lookups-eq-rfc}
use jrpxy.Util.Parse.Trim.{Trims, trim_ows-Trims}
use jrpxy.Util.Parse.OriginForm.{
  IsOriginForm, BlamedAt, validate_origin_form_iff, validate_origin_form-BlamedAt,
}

lookups-eq-rfc_example :
    (is_valid_tchar b'%' ≡ rfc_tchar b'%')
    × (is_valid_field_vchar b'%' ≡ rfc_field_vchar b'%')
    × (is_valid_path_query_char b'%' ≡ rfc_path_query_char b'%')
lookups-eq-rfc_example = lookups-eq-rfc b'%' (omega arith)

trim_ows-Trims_example : Trims (codes " \r\nx\t") (trim_ows (codes " \r\nx\t"))
trim_ows-Trims_example = trim_ows-Trims (codes " \r\nx\t")

validate_origin_form_iff_example :
    (validate_origin_form (codes "/a%20b") ≡ ok tt) ↔ IsOriginForm (codes "/a%20b")
validate_origin_form_iff_example = validate_origin_form_iff (codes "/a%20b")

bad_character : validate_origin_form (codes "/foo bar") ≡ err (invalid_character 4 b' ')
unfolding validate_origin_form is_valid_path_query_char is_ascii_hexdigit
bad_character = refl

bad_percent : validate_origin_form (codes "/%2Z") ≡ err (invalid_percent_encoding 1)
unfolding validate_origin_form is_valid_path_query_char is_ascii_hexdigit
bad_percent = refl

validate_origin_form-BlamedAt_example : BlamedAt 1 (codes "foo bar") (invalid_character 4 b' ')
validate_origin_form-BlamedAt_example =
    validate_origin_form-BlamedAt (codes "foo bar") (invalid_character 4 b' ') bad_character
