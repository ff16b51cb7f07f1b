-- ===== src/Proxy/Fields/Via.antt =====
-- proxy/src/options.rs, and the Via field of proxy/src/lib.rs that carries `received_by`.
use jrpxy.Prelude.{
  ℕ, ◌==◌, Bytes, Bool, true, ◌||◌, [], ◌∷◌, ◌++◌, ◌≡◌, refl, ◌∙◌, codes, all, ok, both_true,
}
use jrpxy.Util.Parse.Tables.{is_valid_tchar, is_valid_field_vchar}
use jrpxy.Util.Parse.{is_valid_field_name, is_valid_field_value}
use jrpxy.Util.Parse.Classes.{tchar_vchar}
use jrpxy.HttpMessage.Version.{HttpVersion, http10, http11}
use jrpxy.HttpMessage.Header.{Headers, push, push_raw}
use jrpxy.HttpMessage.Header.Fields.{push_iff}
use jrpxy.Proxy.Options.{ProxyOptions, build}
use jrpxy.Proxy.Options.Valid.{build_iff}
use jrpxy.Proxy.Fields.{via_version, insert_proxy_headers}

abbrev in_value : ℕ → Bool
in_value b = is_valid_field_vchar b || b == b' ' || b == b'\t'

chars_in_value : (v : Bytes) → all is_valid_tchar v ≡ true → all in_value v ≡ true
chars_in_value [] h = refl
chars_in_value (b ∷ r) h =
    let (here, there) = both_true (is_valid_tchar b) (all is_valid_tchar r) h in
    rw (tchar_vchar b here, chars_in_value r there) refl

version_in_value :
    (v : HttpVersion) (rest : Bytes)
    → all in_value (via_version v ++ codes " " ++ rest) ≡ all in_value rest
unfolding via_version is_valid_field_vchar
version_in_value http10 rest = refl
version_in_value http11 rest = refl

-- With options that could be built, the Via field that is put in is one that the checked `push`
-- accepts too: its value is a valid field value.
pub insert_proxy_headers-push :
    (o o' : ProxyOptions) (version : HttpVersion) (h : Headers)
    → build o ≡ ok o'
    → push h (codes "Via") (via_version version ++ codes " " ++ o'.received_by)
      ≡ ok (insert_proxy_headers version o'.received_by h)
unfolding is_valid_field_name is_valid_field_value is_valid_tchar insert_proxy_headers push_raw
insert_proxy_headers-push o o' version h e =
    let (same, _, chars) = (build_iff o o').0 e in
    let value : all in_value o'.received_by ≡ true = rw same (chars_in_value o.received_by chars) in
    (push_iff h (insert_proxy_headers version o'.received_by h) (codes "Via")
        (via_version version ++ codes " " ++ o'.received_by)).1
      (refl, version_in_value version o'.received_by ∙ value, refl)
