-- ===== src/Tests/HttpParse.antt =====
-- A stand-in for httparse that knows one request, one response, and a chunk of three bytes.
use jrpxy.Prelude.{
  codes, none, refl, ℕ, ◌≤◌, ◌≡◌, arith, [], false, Bytes, leb, if◌then◌else◌, Result, ok, length,
  List, All,
}
use jrpxy.HttpMessage.Version.{http11}
use jrpxy.HttpMessage.Parse.{
  elsewhere, make_response, from_subslice, Status, partial, complete, Span, within, Within,
  SliceWithin, FieldWithin, HeaderOffset, ParsedRequest, ParsedResponse, HttpParse,
}

abbrev one : ℕ → ℕ → Span
one o l = record { offset = o; len = l }

abbrev pub get_root : ParsedRequest
get_root = record { method = one 0 3; path = one 4 1; version = 1; headers = [] }

abbrev pub plain_ok : ParsedResponse
plain_ok = record { version = 1; code = 200; reason = within (one 13 2); headers = [] }

-- Complete as soon as there are `n` bytes.
abbrev pub when_there : {A : Type 0} → ℕ → A → Bytes → Result (Status (ℕ × A)) Unit
when_there n a bs = if leb n (length bs) then ok (complete (n, a)) else ok partial

pub when_there-inside :
    {A : Type 0} (n : ℕ) (a b : A) (bs : Bytes) (m : ℕ)
    → when_there n a bs ≡ ok (complete (m, b))
    → (m ≤ length bs) × (m ≡ n) × (b ≡ a)
when_there-inside n a b bs m h = ground arith

request-Within :
    (bs : Bytes) (n : ℕ) (r : ParsedRequest)
    → when_there 6 get_root bs ≡ ok (complete (n, r))
    → (n ≤ length bs) × Within n r.method × Within n r.path × All (FieldWithin n) r.headers
request-Within bs n r h =
    let (le, size, is) = when_there-inside 6 get_root r bs n h in
    (le, rw (size, is) (omega arith), rw (size, is) (omega arith), rw is tt)

response-Within :
    (bs : Bytes) (n : ℕ) (r : ParsedResponse)
    → when_there 19 plain_ok bs ≡ ok (complete (n, r))
    → (n ≤ length bs) × SliceWithin n r.reason × All (FieldWithin n) r.headers
response-Within bs n r h =
    let (le, size, is) = when_there-inside 19 plain_ok r bs n h in
    (le, rw (size, is) (omega arith), rw is tt)

headers_within :
    (bs : Bytes) (n : ℕ) (hs : List HeaderOffset)
    → when_there 2 [] bs ≡ ok (complete (n, hs))
    → (n ≤ length bs) × All (FieldWithin n) hs
headers_within bs n hs h = let (le, size, is) = when_there-inside 2 [] hs bs n h in (le, rw is tt)

pub toy : HttpParse Unit
toy = record {
  parse_chunk_size = when_there 3 3;
  parse_headers = λ slots bs. when_there 2 [] bs;
  parse_request = λ slots bs. when_there 6 get_root bs;
  parse_response = λ slots bs. when_there 19 plain_ok bs;
  too_many_headers = λ e. false;
  chunk_size_inside = λ bs n size h. (when_there-inside 3 3 size bs n h).0;
  headers_inside = λ slots bs n hs h. headers_within bs n hs h;
  request_inside = λ slots bs n r h. request-Within bs n r h;
  response_inside = λ slots bs n r h. response-Within bs n r h;
}

-- A status line without a reason makes the parse panic: httparse's empty reason is not in the buffer.
panics_without_reason :
    make_response http11 (record plain_ok { reason = elsewhere }) (codes "HTTP/1.1 200\r\n\r\n")
    ≡ none
unfolding make_response from_subslice
panics_without_reason = refl
