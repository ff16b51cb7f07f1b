-- ===== src/Tests/Header.antt =====
-- http-message/src/header.rs
use jrpxy.Prelude.{
  ◌≡◌, ◌≢◌, ◌↔◌, refl, [], ◌∷◌, not, true, false, codes, any, All, if◌then◌else◌, ok, err, ◌>>=◌,
  is_ascii_digit, parse_u64, eq_ignore_ascii_case,
}
use jrpxy.Util.Parse.Tables.{is_valid_tchar}
use jrpxy.Util.Parse.{is_ows, trim_ows}
use jrpxy.HttpMessage.Framing.{ParsedFraming, chunked, no_framing}
use jrpxy.HttpMessage.Version.{http10, http11}
use jrpxy.HttpMessage.Header.{Headers, both_te_and_cl, framing, get_header}
use jrpxy.HttpMessage.Header.Framed.{is_cl, is_te, values, cl_elements}
use jrpxy.HttpMessage.Header.Codings.{IsSoleChunked}
use jrpxy.HttpMessage.Header.Decides.{Says, framing-length, framing-chunked, framing-no_framing}
use jrpxy.HttpMessage.Connection.{connection_tokens, connection_is_persistent, tokens_of}
use jrpxy.HttpMessage.Connection.Tokens.{Yields, tokens_of-Yields}
use jrpxy.HttpMessage.Connection.Persistent.{collect, is_close, connection_is_persistent_lem}

abbrev twice_five : Headers
twice_five = record {
  headers =
      (codes "Content-Length", codes "5, 5")
      ∷ (codes "host", codes "a")
      ∷ (codes "content-length", codes "5")
      ∷ [];
}

abbrev smuggled : Headers
smuggled = record {
  headers = (codes "content-length", codes "6") ∷ (codes "transfer-encoding", codes "chunked") ∷ [];
}

abbrev lone_chunked : Headers
lone_chunked = record { headers = (codes "transfer-encoding", codes ", Chunked") ∷ [] }

framing_runs :
    (framing twice_five ≡ ok (ParsedFraming.length 5))
    × (framing smuggled ≡ err both_te_and_cl)
    × (framing lone_chunked ≡ ok chunked)
unfolding framing eq_ignore_ascii_case trim_ows is_ows is_ascii_digit parse_u64
framing_runs = (refl, refl, refl)

framing-length_example : (framing twice_five ≡ ok (ParsedFraming.length 5)) ↔ (
    (values is_cl twice_five.headers ≢ [])
    × (values is_te twice_five.headers ≡ [])
    × All (Says 5) (cl_elements twice_five.headers))
framing-length_example = framing-length twice_five 5

framing-chunked_example : (framing lone_chunked ≡ ok chunked) ↔ (
    (values is_cl lone_chunked.headers ≡ [])
    × (v : _) × (values is_te lone_chunked.headers ≡ v ∷ [])
    × IsSoleChunked v)
framing-chunked_example = framing-chunked lone_chunked

framing-no_framing_example :
    (framing smuggled ≡ ok no_framing)
    ↔ ((values is_cl smuggled.headers ≡ []) × (values is_te smuggled.headers ≡ []))
framing-no_framing_example = framing-no_framing smuggled

tokens_of-Yields_example : Yields (codes "close, , x") (tokens_of (codes "close, , x"))
tokens_of-Yields_example = tokens_of-Yields (codes "close, , x")

abbrev closing : Headers
closing = record { headers = (codes "Connection", codes "keep-alive, close") ∷ [] }

closes : connection_is_persistent closing http10 ≡ ok false
unfolding connection_is_persistent connection_tokens get_header tokens_of is_valid_tchar
    eq_ignore_ascii_case
closes = refl

connection_is_persistent_lem_example : connection_is_persistent closing http11 ≡ (
    collect (connection_tokens closing) >>= λ ts.
    ok (if not (any is_close ts) then true else false))
connection_is_persistent_lem_example = connection_is_persistent_lem closing http11
