-- ===== src/Proxy/Fields.antt =====
-- proxy/src/lib.rs: the header fields that are kept from a message when it is forwarded, and those that
-- are put in. What `httpdate` prints for the present time is an argument.
pub mod Trailers
pub mod Via
use jrpxy.Prelude.{
  Bytes, Bool, ◌||◌, not, if◌then◌else◌, List, [], ◌∷◌, ◌++◌, Result, ok, err, codes, any, is_empty,
  eq_ignore_ascii_case,
}
use jrpxy.HttpMessage.Version.{HttpVersion, http10, http11}
use jrpxy.HttpMessage.Header.{Headers, get_header, retain, push_raw}

abbrev pub hop_by_hop_headers : List Bytes
hop_by_hop_headers =
    codes "connection"
    ∷ codes "keep-alive"
    ∷ codes "proxy-authenticate"
    ∷ codes "proxy-authorization"
    ∷ codes "te"
    ∷ codes "transfer-encoding"
    ∷ codes "upgrade"
    ∷ []

unfoldable pub is_standard_hop_by_hop : Bytes → Bool
is_standard_hop_by_hop name = any (λ h. eq_ignore_ascii_case h name) hop_by_hop_headers

unfoldable pub is_hop_by_hop : Bytes → List Bytes → Bool
is_hop_by_hop name connection_tokens =
    is_standard_hop_by_hop name || any (λ t. eq_ignore_ascii_case t name) connection_tokens

unfoldable pub strip_hop_by_hop_headers : List Bytes → Headers → Headers
strip_hop_by_hop_headers connection_tokens headers =
    retain (λ f. not (is_hop_by_hop f.0 connection_tokens)) headers

abbrev pub forbidden_trailer_headers : List Bytes
forbidden_trailer_headers =
    codes "content-length"
    ∷ codes "host"
    ∷ codes "cache-control"
    ∷ codes "expect"
    ∷ codes "max-forwards"
    ∷ codes "if-match"
    ∷ codes "if-none-match"
    ∷ codes "if-modified-since"
    ∷ codes "if-unmodified-since"
    ∷ codes "if-range"
    ∷ codes "range"
    ∷ codes "authorization"
    ∷ codes "www-authenticate"
    ∷ codes "set-cookie"
    ∷ codes "cookie"
    ∷ codes "age"
    ∷ codes "expires"
    ∷ codes "date"
    ∷ codes "vary"
    ∷ codes "location"
    ∷ codes "content-encoding"
    ∷ codes "content-type"
    ∷ codes "content-range"
    ∷ codes "content-location"
    ∷ codes "trailer"
    ∷ []

unfoldable pub is_forbidden_trailer_field : Bytes → Bool
is_forbidden_trailer_field name =
    is_standard_hop_by_hop name || any (λ h. eq_ignore_ascii_case h name) forbidden_trailer_headers

unfoldable pub sanitize_trailers : Headers → Headers
sanitize_trailers trailers = retain (λ f. not (is_forbidden_trailer_field f.0)) trailers

-- `via_version`
unfoldable pub via_version : HttpVersion → Bytes
via_version http10 = codes "1.0"
via_version http11 = codes "1.1"

unfoldable pub insert_proxy_headers : HttpVersion → Bytes → Headers → Headers
unfolding via_version
insert_proxy_headers version received_by headers =
    push_raw headers (codes "Via") (via_version version ++ codes " " ++ received_by)

unfoldable pub insert_date_header_if_absent : Bytes → Headers → Headers
insert_date_header_if_absent now headers =
    if not (is_empty (get_header headers (codes "date")))
    then headers
    else push_raw headers (codes "Date") now
