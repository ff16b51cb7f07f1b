-- ===== src/Tests/Proxy.antt =====
-- proxy/src, and the operations on header sets of http-message/src/header.rs
use jrpxy.Prelude.{
  ℕ, List, [], ◌∷◌, ◌++◌, true, false, ◌≡◌, refl, Result, ok, err, codes, eq_ignore_ascii_case,
  is_ascii_hexdigit, is_ascii_alphabetic, is_ascii_alphanumeric, bytes_eq,
}
use jrpxy.Util.Parse.Tables.{is_valid_tchar, is_valid_field_vchar, is_valid_path_query_char}
use jrpxy.Util.Parse.{is_valid_field_name, is_valid_field_value, validate_origin_form}
use jrpxy.HttpMessage.Version.{http11}
use jrpxy.HttpMessage.Header.{
  Headers, Field, framing, get_header, push, push_raw, remove, merge, retain,
}
use jrpxy.HttpMessage.Header.Fields.{IsFieldLine, push-IsFieldLine}
use jrpxy.HttpMessage.Message.{Request, set_origin_form_path}
use jrpxy.HttpMessage.Connection.{connection_tokens, tokens_of}
use jrpxy.Proxy.Error.{malformed_request_target, multiple_hosts}
use jrpxy.Proxy.Target.{absolute, classify, normalize}
use jrpxy.Proxy.Target.Absolute.{IsAbsolute, classify-IsAbsolute}
use jrpxy.Proxy.Target.Normal.{Normal, normalize-Normal, normalize_atomic}
use jrpxy.Proxy.Fields.{
  is_standard_hop_by_hop, is_hop_by_hop, strip_hop_by_hop_headers, is_forbidden_trailer_field,
  sanitize_trailers,
}
use jrpxy.Proxy.Fields.Trailers.{sanitize_trailers-get_header, sanitize_trailers-framing}
use jrpxy.Proxy.Options.{default, build}
use jrpxy.Proxy.Request.{
  FrontendRequest, FrontendRequestError, FrontendProxyRequest, get_connection_tokens, new,
  from_request,
}
use jrpxy.Proxy.Request.Forwards.{Forwarded, from_request-Forwarded, from_request_recovers}

abbrev fields : Headers
fields = record {
  headers =
      (codes "Host", codes "old")
      ∷ (codes "Connection", codes "x-a")
      ∷ (codes "X-A", codes "1")
      ∷ (codes "Accept", codes "*/*")
      ∷ [];
}

abbrev get_absolute : Request
get_absolute = record {
  method = codes "GET";
  path = codes "http://a.b?q#f";
  version = http11;
  headers = fields;
}

is_absolute : classify (codes "http://a.b?q#f") ≡ absolute (codes "a.b") (codes "/?q")
unfolding classify bytes_eq is_ascii_alphabetic is_ascii_alphanumeric
is_absolute = refl

classify-IsAbsolute_example : IsAbsolute (codes "http://a.b?q#f") (codes "a.b") (codes "/?q")
classify-IsAbsolute_example =
    (classify-IsAbsolute (codes "http://a.b?q#f") (codes "a.b") (codes "/?q")).0 is_absolute

accepted : (normalize get_absolute).0 ≡ ok tt
unfolding normalize classify set_origin_form_path validate_origin_form bytes_eq is_ascii_alphabetic
    is_ascii_alphanumeric is_valid_path_query_char
accepted = refl

normalize-Normal_example : Normal get_absolute (normalize get_absolute).1
normalize-Normal_example = normalize-Normal get_absolute accepted

abbrev bad_target : Request
bad_target = record get_absolute { path = codes "http://a.b/%zz" }

refused_target : (normalize bad_target).0 ≡ err malformed_request_target
unfolding normalize classify set_origin_form_path validate_origin_form bytes_eq is_ascii_alphabetic
    is_ascii_alphanumeric is_ascii_hexdigit is_valid_path_query_char
refused_target = refl

normalize_atomic_example : (normalize bad_target).1 ≡ bad_target
normalize_atomic_example = normalize_atomic bad_target malformed_request_target refused_target

abbrev pushed : Headers
pushed = record { headers = fields.headers ++ (codes "A-b", codes "c d") ∷ [] }

push_works : push fields (codes "A-b") (codes "c d") ≡ ok pushed
unfolding push is_valid_field_name is_valid_field_value is_valid_tchar is_valid_field_vchar
push_works = refl

push-IsFieldLine_example : IsFieldLine (codes "A-b") (codes "A-b: c d")
push-IsFieldLine_example = push-IsFieldLine fields pushed (codes "A-b") (codes "c d") push_works

-- Trailers that would forge the framing and the host.
abbrev trailers : Headers
trailers = record {
  headers =
      (codes "content-LENGTH", codes "9")
      ∷ (codes "HOST", codes "evil")
      ∷ (codes "x-sum", codes "1")
      ∷ [];
}

sanitizes : sanitize_trailers trailers ≡ record { headers = (codes "x-sum", codes "1") ∷ [] }
unfolding sanitize_trailers retain is_forbidden_trailer_field is_standard_hop_by_hop
    eq_ignore_ascii_case
sanitizes = refl

sanitize_trailers-framing_example :
    framing (merge fields (sanitize_trailers trailers)) ≡ framing fields
sanitize_trailers-framing_example = sanitize_trailers-framing fields trailers

forbids_host : is_forbidden_trailer_field (codes "Host") ≡ true
unfolding is_forbidden_trailer_field is_standard_hop_by_hop eq_ignore_ascii_case
forbids_host = refl

sanitize_trailers-get_header_example :
    get_header (merge fields (sanitize_trailers trailers)) (codes "Host")
    ≡ get_header fields (codes "Host")
sanitize_trailers-get_header_example =
    sanitize_trailers-get_header fields trailers (codes "Host") forbids_host

builds : build default ≡ ok default
unfolding build is_valid_tchar
builds = refl

-- The body and the writer are numbers.
abbrev incoming : FrontendRequest ℕ
incoming = record { req = get_absolute; reader = 7 }

abbrev outgoing : FrontendProxyRequest ℕ ℕ
outgoing = record {
  frontend = record {
    req = record {
      method = codes "GET";
      path = codes "/?q";
      version = http11;
      headers = record {
        headers = (codes "Accept", codes "*/*") ∷ (codes "host", codes "a.b") ∷ [];
      };
    };
    reader = 7;
  };
  original = get_absolute;
  pending = record {
    frontend_writer = 8;
    options = default;
    client_options = record { is_head = false; version = http11 };
  };
}

forwards : from_request incoming 8 default ≡ ok outgoing
unfolding from_request get_connection_tokens connection_tokens tokens_of get_header new normalize
    classify set_origin_form_path validate_origin_form remove push_raw strip_hop_by_hop_headers
    retain is_hop_by_hop is_standard_hop_by_hop eq_ignore_ascii_case bytes_eq is_ascii_alphabetic
    is_ascii_alphanumeric is_valid_path_query_char is_valid_tchar
forwards = refl

from_request-Forwarded_example : Forwarded incoming outgoing
from_request-Forwarded_example = from_request-Forwarded incoming 8 default outgoing forwards

-- Two Host fields.
abbrev doubled : FrontendRequest ℕ
doubled = record {
  req = record get_absolute {
    headers = record { headers = (codes "host", codes "x") ∷ fields.headers };
  };
  reader = 7;
}

abbrev given_back : FrontendRequestError ℕ ℕ
given_back = record { request = doubled; pending = outgoing.pending; error = multiple_hosts }

refuses : from_request doubled 8 default ≡ err given_back
unfolding from_request get_connection_tokens connection_tokens tokens_of get_header
    eq_ignore_ascii_case bytes_eq is_valid_tchar
refuses = refl

from_request_recovers_example :
    (doubled ≡ doubled) × (8 ≡ given_back.pending.frontend_writer) × (default ≡ default)
from_request_recovers_example = from_request_recovers doubled 8 default given_back refuses

-- A Connection field that names Host has it taken out of what is forwarded.
abbrev names_host : FrontendRequest ℕ
names_host = record {
  req = record get_absolute {
    path = codes "/";
    headers = record {
      headers = (codes "host", codes "x") ∷ (codes "connection", codes "host") ∷ [];
    };
  };
  reader = 7;
}

abbrev hosts_left :
    Result (FrontendProxyRequest ℕ ℕ) (FrontendRequestError ℕ ℕ)
    → Result (List Field) (FrontendRequestError ℕ ℕ)
hosts_left (ok p) = ok p.frontend.req.headers.headers
hosts_left (err e) = err e

drops_host : hosts_left (from_request names_host 8 default) ≡ ok []
unfolding from_request get_connection_tokens connection_tokens tokens_of get_header new normalize
    classify strip_hop_by_hop_headers retain is_hop_by_hop is_standard_hop_by_hop
    eq_ignore_ascii_case bytes_eq is_valid_tchar
drops_host = refl
