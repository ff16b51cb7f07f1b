-- ===== src/Proxy/Target.antt =====
-- proxy/src/request_target.rs
pub mod Plain
pub mod Absolute
pub mod Normal
use jrpxy.Prelude.{
  ℕ, ◌+◌, Bytes, Bool, ◌==◌, ◌||◌, not, ltb, if◌then◌else◌, [], ◌∷◌, Result, ok, err, length, take,
  drop, any, is_empty, codes, bytes_eq, find_or_end, is_ascii_alphabetic, is_ascii_alphanumeric,
  eq_ignore_ascii_case,
}
use jrpxy.Util.Parse.{OriginFormError}
use jrpxy.HttpMessage.Header.{remove, push_raw}
use jrpxy.HttpMessage.Message.{Request, set_origin_form_path}
use jrpxy.Proxy.Error.{
  ProxyFrontendError, malformed_request_target, asterisk_form_not_allowed,
  authority_form_not_allowed,
}

pub data RequestTargetForm : Type 0 where
  origin : RequestTargetForm
  asterisk : RequestTargetForm
  absolute : (authority path_and_query : Bytes) → RequestTargetForm
  maybe_authority : RequestTargetForm
  empty : RequestTargetForm
  malformed : RequestTargetForm

-- The predicates of the searches by `position`.
unfoldable pub ends_scheme : ℕ → Bool
ends_scheme b = not (is_ascii_alphanumeric b || (b == b'+' || (b == b'-' || b == b'.')))

unfoldable pub ends_authority : ℕ → Bool
ends_authority b = b == b'/' || (b == b'?' || b == b'#')

abbrev pub is_fragment : ℕ → Bool
is_fragment b = b == b'#'

abbrev pub is_at : ℕ → Bool
is_at b = b == b'@'

-- The `path_and_query` of an absolute form.
unfoldable pub origin_path : Bytes → Bytes
origin_path [] = codes "/"
origin_path (b ∷ r) = if b == b'?' then b'/' ∷ b ∷ r else b ∷ r

-- The part of `parse_absolute_form` from the authority on.
pub parse_authority : Bytes → RequestTargetForm
unfolding ends_authority origin_path
parse_authority after_scheme =
    let authority_end = find_or_end ends_authority after_scheme in
    let authority = take authority_end after_scheme in
    if is_empty authority
    then malformed
    else if any is_at authority
    then malformed
    else (let path_query = drop authority_end after_scheme in
        absolute authority (origin_path (take (find_or_end is_fragment path_query) path_query)))

-- The part of `parse_absolute_form` behind the check of the first byte.
pub parse_scheme : Bytes → RequestTargetForm
unfolding ends_scheme parse_authority
parse_scheme bytes =
    let scheme_end = find_or_end ends_scheme bytes in
    if ltb (length bytes) (scheme_end + 3)
      || not (bytes_eq (take 3 (drop scheme_end bytes)) (codes "://"))
    then maybe_authority
    else parse_authority (drop (scheme_end + 3) bytes)

unfoldable pub parse_absolute_form : Bytes → RequestTargetForm
unfolding parse_scheme
parse_absolute_form [] = empty
parse_absolute_form (b ∷ r) =
    if not (is_ascii_alphabetic b) then malformed else parse_scheme (b ∷ r)

pub classify_first : Bytes → RequestTargetForm
unfolding parse_absolute_form
classify_first [] = empty
classify_first (b ∷ r) =
    if b == b'/'
    then origin
    else if is_ascii_alphabetic b
    then parse_absolute_form (b ∷ r)
    else malformed

unfoldable pub classify : Bytes → RequestTargetForm
unfolding classify_first
classify target = if bytes_eq target (codes "*") then asterisk else classify_first target

-- The fields that `normalize` takes out.
abbrev pub is_host : Bytes × Bytes → Bool
is_host f = eq_ignore_ascii_case f.0 (codes "host")

-- What follows `set_origin_form_path`.
pub with_host :
    Bytes → Result Unit OriginFormError × Request → Result Unit ProxyFrontendError × Request
with_host authority (err _, req) = (err malformed_request_target, req)
with_host authority (ok _, req) = (
  ok tt,
  record req { headers = push_raw (remove is_host req.headers).0 (codes "host") authority },
)

-- The `match` of `normalize`.
pub normalize_form : RequestTargetForm → Request → Result Unit ProxyFrontendError × Request
unfolding with_host
normalize_form origin req = (ok tt, req)
normalize_form asterisk req =
    if bytes_eq req.method (codes "OPTIONS")
    then (ok tt, req)
    else (err asterisk_form_not_allowed, req)
normalize_form (absolute authority path_and_query) req =
    with_host authority (set_origin_form_path path_and_query req)
normalize_form maybe_authority req = (err authority_form_not_allowed, req)
normalize_form empty req = (err malformed_request_target, req)
normalize_form malformed req = (err malformed_request_target, req)

unfoldable pub normalize : Request → Result Unit ProxyFrontendError × Request
unfolding normalize_form
normalize req = normalize_form (classify req.path) req
