-- ===== src/Frontend/Reader.antt =====
-- frontend/src/reader.rs: reading a request and choosing the reader of its body. The slots for parsing go from
-- reader to reader; here they stand beside the body reader.
pub mod Decides
pub mod Bodies
use jrpxy.Prelude.{
  ℕ, suc, ◌+◌, Bool, true, false, not, ◌&&◌, is_empty, Option, none, some, Bytes, codes, Result, ok,
  err, ◌>>=◌, ◌>>◌, map_err, if◌then◌else◌,
}
use jrpxy.Util.Async.{Poll, pending, ready, AsyncRead}
use jrpxy.Util.IoBuffer.{BytesReader}
use jrpxy.Util.IoBuffer
use jrpxy.HttpMessage.Version.{HttpVersion, http10, http11}
use jrpxy.HttpMessage.Framing.{ParsedFraming, length, chunked, no_framing}
use jrpxy.HttpMessage.Header.{Headers, get_header, framing}
use jrpxy.HttpMessage.Connection.{connection_is_persistent}
use jrpxy.HttpMessage.Message.{Request}
use jrpxy.HttpMessage.Parse.{ParseSlots, HttpParse, MessageError, parse_request}
use jrpxy.HttpMessage.Parse.Head.{
  HeadError, parse_failed, too_long, read_failed, HeadPolled, poll_head,
}
use jrpxy.HttpMessage.Parse.Head
use jrpxy.Body.Reader.ContentLength.{ContentLengthBodyReader}
use jrpxy.Body.Reader.ContentLength
use jrpxy.Body.Reader.Chunked.{ChunkedBodyReader}
use jrpxy.Body.Reader.Chunked
use jrpxy.Body.Reader.Bodyless.{BodylessBodyReader}
use jrpxy.Body.Reader.Bodyless
use jrpxy.Frontend.Error.{
  FrontendError, read_error, first_read_eof, unexpected_eof, http_request_parse_error, header_error,
  invalid_connection_header, max_head_len_exceeded, transfer_encoding_on_http10,
}

pub record FrontendReader (I : Type 0) : Type 0 where
  pub reader : BytesReader I
  pub parse_slots : ParseSlots

unfoldable pub new_with_buffer : {I : Type 0} → BytesReader I → ℕ → FrontendReader I
new_with_buffer reader max_headers = record {
  reader = reader;
  parse_slots = record { slot_count = max_headers };
}

unfoldable pub new : {I : Type 0} → I → ℕ → FrontendReader I
unfolding new_with_buffer
new reader max_headers = new_with_buffer (IoBuffer.new reader) max_headers

unfoldable pub head_error : {E P : Type 0} → HeadError E P → FrontendError E (MessageError P)
head_error (parse_failed e) = http_request_parse_error e
head_error (too_long len max) = max_head_len_exceeded len max
head_error (read_failed e) = read_error e
head_error Head.HeadError.first_read_eof = first_read_eof
head_error Head.HeadError.unexpected_eof = unexpected_eof

pub data FrontendBodyReader (I : Type 0) : Type 0 where
  bodyless : BodylessBodyReader I → ParseSlots → (recyclable : Bool) → FrontendBodyReader I
  cl : ContentLengthBodyReader I → ParseSlots → (recyclable : Bool) → FrontendBodyReader I
  te : ChunkedBodyReader I → (recyclable : Bool) → FrontendBodyReader I

module _ {I : Type 0} where
  unfoldable pub recyclable : FrontendBodyReader I → Bool
  recyclable (bodyless r slots b) = b
  recyclable (cl r slots b) = b
  recyclable (te r b) = b

  unfoldable pub drained : FrontendBodyReader I → Bool
  drained (bodyless r slots b) = true
  drained (cl r slots b) = ContentLength.drained r
  drained (te r b) = Chunked.drained r

  -- The `match` on the framing.
  unfoldable pub body_reader :
      BytesReader I → ParseSlots → ℕ → ℕ → Bool → ParsedFraming → FrontendBodyReader I
  body_reader reader slots max_chunk_header_length max_head_length keep (length n) =
      cl (ContentLength.new n reader) slots keep
  body_reader reader slots max_chunk_header_length max_head_length keep chunked =
      te (Chunked.new reader slots max_chunk_header_length max_head_length) keep
  body_reader reader slots max_chunk_header_length max_head_length keep no_framing =
      bodyless (Bodyless.new reader) slots keep

abbrev is_http10 : HttpVersion → Bool
is_http10 http10 = true
is_http10 http11 = false

module _ {I E P : Type 0} where
  -- What follows the head in `read`.
  unfoldable pub open_body :
      ℕ
      → ℕ
      → FrontendReader I
      → Request
      → Result (FrontendBodyReader I) (FrontendError E (MessageError P))
  unfolding body_reader
  open_body max_head_length max_chunk_header_length fr req =
      if is_http10 req.version
        && not (is_empty (get_header req.headers (codes "transfer-encoding")))
      then err transfer_encoding_on_http10
      else (do
        keep ← map_err invalid_connection_header (connection_is_persistent req.headers req.version)
        f ← map_err header_error (framing req.headers)
        ok (body_reader fr.reader fr.parse_slots max_chunk_header_length max_head_length keep f))

  -- The request and the reader of its body; a pending poll leaves the reader as it has become.
  unfoldable pub read_outcome :
      ℕ
      → ℕ
      → ParseSlots
      → Poll (Result Request (HeadError E P))
      → BytesReader I
      → Poll (Result (Request × FrontendBodyReader I) (FrontendError E (MessageError P)))
  unfolding head_error open_body
  read_outcome max_head_length max_chunk_header_length slots pending r = pending
  read_outcome max_head_length max_chunk_header_length slots (ready (err e)) r =
      ready (err (head_error e))
  read_outcome max_head_length max_chunk_header_length slots (ready (ok req)) r = ready (do
    body ←
        open_body max_head_length max_chunk_header_length
          (record { reader = r; parse_slots = slots }) req
    ok (req, body))

module _ {I E P : Type 0} (source : AsyncRead I E) (http : HttpParse P) where
  unfoldable pub head : ℕ → FrontendReader I → HeadPolled I Request E P
  head max_head_length fr =
      poll_head source (parse_request http fr.parse_slots) (max_head_length + 1) max_head_length
        fr.reader

  unfoldable pub read :
      ℕ
      → ℕ
      → FrontendReader I
      → Option (
          Poll (Result (Request × FrontendBodyReader I) (FrontendError E (MessageError P)))
          × BytesReader I)
  unfolding head read_outcome
  read max_head_length max_chunk_header_length fr = elim (head max_head_length fr) [
    | none ↦ none
    | some (outcome, r) ↦
        some (read_outcome max_head_length max_chunk_header_length fr.parse_slots outcome r, r)
  ]
