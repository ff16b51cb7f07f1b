-- ===== src/HttpMessage/Parse.antt =====
-- http-message/src/message.rs: what `ParseSlots` does with a parse of httparse, which is a parameter. The slices that
-- httparse returns are the spans where they lie in the buffer; `none` is a panic. Of the slots only their
-- number matters.
pub mod Cuts
pub mod Head
use jrpxy.Prelude.{
  ℕ, ◌+◌, ◌≤◌, Bool, List, [], ◌∷◌, Option, none, some, Bytes, leb, if◌then◌else◌, length, take,
  drop, Result, ok, err, ◌≡◌, All,
}
use jrpxy.Util.IoBuffer.{BytesReader, as_bytes, split_to}
use jrpxy.HttpMessage.Version.{HttpVersion, try_from}
use jrpxy.HttpMessage.Header.{Field, Headers, new, push_raw}
use jrpxy.HttpMessage.Message.{Request, Response}
use jrpxy.HttpMessage.Builder.{BuildError}

pub record ParseSlots : Type 0 where
  pub slot_count : ℕ

-- httparse's `Status`.
pub data Status (A : Type 0) : Type 0 where
  partial : Status A
  complete : A → Status A

pub record Span : Type 0 where
  pub offset : ℕ
  pub len : ℕ

-- The end of the span is at most `n`.
abbrev pub Within : ℕ → Span → Type 0
Within n s = s.offset + s.len ≤ n

-- A slice that httparse returns: a part of the buffer, or other memory.
pub data Slice : Type 0 where
  within : Span → Slice
  elsewhere : Slice

abbrev pub SliceWithin : ℕ → Slice → Type 0
SliceWithin n (within s) = Within n s
SliceWithin n elsewhere = Unit

pub record HeaderOffset : Type 0 where
  pub name : Span
  pub value : Span

abbrev pub FieldWithin : ℕ → HeaderOffset → Type 0
FieldWithin n h = Within n h.name × Within n h.value

-- What httparse puts into a complete request or response; the numbers are the minor version and the code.
pub record ParsedRequest : Type 0 where
  pub method : Span
  pub path : Span
  pub version : ℕ
  pub headers : List HeaderOffset

pub record ParsedResponse : Type 0 where
  pub version : ℕ
  pub code : ℕ
  pub reason : Slice
  pub headers : List HeaderOffset

-- httparse, with errors `P`; the number is that of the slots. A complete parse takes a front part of the buffer,
-- and the slices lie in it; only the reason of a response is a slice of other memory, an empty one, when the status
-- line has none.
pub record HttpParse (P : Type 0) : Type 0 where
  pub parse_chunk_size : Bytes → Result (Status (ℕ × ℕ)) P
  pub parse_headers : ℕ → Bytes → Result (Status (ℕ × List HeaderOffset)) P
  pub parse_request : ℕ → Bytes → Result (Status (ℕ × ParsedRequest)) P
  pub parse_response : ℕ → Bytes → Result (Status (ℕ × ParsedResponse)) P
  pub too_many_headers : P → Bool
  pub chunk_size_inside :
      (bs : Bytes) (n size : ℕ) → parse_chunk_size bs ≡ ok (complete (n, size)) → n ≤ length bs
  pub headers_inside :
      (slots : ℕ) (bs : Bytes) (n : ℕ) (hs : List HeaderOffset)
      → parse_headers slots bs ≡ ok (complete (n, hs))
      → (n ≤ length bs) × All (FieldWithin n) hs
  pub request_inside :
      (slots : ℕ) (bs : Bytes) (n : ℕ) (r : ParsedRequest)
      → parse_request slots bs ≡ ok (complete (n, r))
      → (n ≤ length bs) × Within n r.method × Within n r.path × All (FieldWithin n) r.headers
  pub response_inside :
      (slots : ℕ) (bs : Bytes) (n : ℕ) (r : ParsedResponse)
      → parse_response slots bs ≡ ok (complete (n, r))
      → (n ≤ length bs) × SliceWithin n r.reason × All (FieldWithin n) r.headers

-- `not_built` is `MessageError::BuildError`; parsing gives none.
pub data MessageError (P : Type 0) : Type 0 where
  parse : P → MessageError P
  http_version : ℕ → MessageError P
  not_built : BuildError → MessageError P

-- `Span::from_subslice`: its assertions panic for a slice of other memory.
unfoldable pub from_subslice : Slice → Option Span
from_subslice (within s) = some s
from_subslice elsewhere = none

-- `Span::slice_from`: `Bytes::slice` panics beyond the end.
unfoldable pub slice_from : Span → Bytes → Option Bytes
slice_from s buf =
    if leb (s.offset + s.len) (length buf) then some (take s.len (drop s.offset buf)) else none

-- The loop of `populate_headers`.
unfoldable pub populate_headers : List HeaderOffset → Bytes → Headers → Option Headers
unfolding slice_from
populate_headers [] head_buf headers = some headers
populate_headers (h ∷ rest) head_buf headers = elim (slice_from h.name head_buf) [
  | none ↦ none
  | some name ↦ elim (slice_from h.value head_buf) [
    | none ↦ none
    | some value ↦ populate_headers rest head_buf (push_raw headers name value)
  ]
]

unfoldable pub make_request : HttpVersion → ParsedRequest → Bytes → Option Request
unfolding slice_from populate_headers
make_request version p head_buf = elim (slice_from p.method head_buf) [
  | none ↦ none
  | some method ↦ elim (slice_from p.path head_buf) [
    | none ↦ none
    | some path ↦ elim (populate_headers p.headers head_buf new) [
      | none ↦ none
      | some headers ↦
          some (record { method = method; path = path; version = version; headers = headers })
    ]
  ]
]

unfoldable pub make_response : HttpVersion → ParsedResponse → Bytes → Option Response
unfolding from_subslice slice_from populate_headers
make_response version p head_buf = elim (from_subslice p.reason) [
  | none ↦ none
  | some span ↦ elim (slice_from span head_buf) [
    | none ↦ none
    | some reason ↦ elim (populate_headers p.headers head_buf new) [
      | none ↦ none
      | some headers ↦
          some (record { version = version; code = p.code; reason = reason; headers = headers })
    ]
  ]
]

-- The outcome of a parse, and the reader; `none` is a panic.
abbrev pub Parsed : Type 0 → Type 0 → Type 0 → Type 0
Parsed I A P = Option (Result (Option A) (MessageError P) × BytesReader I)

module _ {I P : Type 0} where
  -- What follows a complete parse: the head leaves the reader, and `make` is given it.
  unfoldable pub take_head : {A : Type 0} → BytesReader I → ℕ → (Bytes → Option A) → Parsed I A P
  take_head reader len make = elim (split_to reader len) [
    | none ↦ none
    | some (head_buf, reader') ↦ elim (make head_buf) [
      | none ↦ none
      | some a ↦ some (ok (some a), reader')
    ]
  ]

module _ {I P : Type 0} (http : HttpParse P) where
  unfoldable pub parse_request : ParseSlots → BytesReader I → Parsed I Request P
  unfolding take_head make_request
  parse_request slots reader = elim (http.parse_request slots.slot_count (as_bytes reader)) [
    | err e ↦ some (err (parse e), reader)
    | ok partial ↦ some (ok none, reader)
    | ok (complete (head_len, p)) ↦ elim (try_from p.version) [
      | err v ↦ some (err (http_version v), reader)
      | ok version ↦ take_head reader head_len (make_request version p)
    ]
  ]

  unfoldable pub parse_response : ParseSlots → BytesReader I → Parsed I Response P
  unfolding take_head make_response
  parse_response slots reader = elim (http.parse_response slots.slot_count (as_bytes reader)) [
    | err e ↦ some (err (parse e), reader)
    | ok partial ↦ some (ok none, reader)
    | ok (complete (head_len, p)) ↦ elim (try_from p.version) [
      | err v ↦ some (err (http_version v), reader)
      | ok version ↦ take_head reader head_len (make_response version p)
    ]
  ]

  unfoldable pub parse_headers : ParseSlots → BytesReader I → Parsed I Headers P
  unfolding take_head populate_headers
  parse_headers slots reader = elim (http.parse_headers slots.slot_count (as_bytes reader)) [
    | err e ↦ some (err (parse e), reader)
    | ok partial ↦ some (ok none, reader)
    | ok (complete (len, hs)) ↦ take_head reader len (λ head_buf. populate_headers hs head_buf new)
  ]
