-- ===== src/Backend/Reader.antt =====
-- backend/src/reader.rs: reading a response and choosing the reader of its body. The slots for parsing go from
-- reader to reader; here they stand beside the body reader.
pub mod Decides
pub mod Bodies
use jrpxy.Prelude.{
  ℕ, suc, ◌+◌, Bool, true, false, not, ◌&&◌, ◌||◌, ◌==◌, leb, is_empty, Option, none, some, Bytes,
  codes, Result, ok, err, ◌>>=◌, ◌>>◌, map_err, if◌then◌else◌,
}
use jrpxy.Util.Async.{Poll, pending, ready, AsyncRead}
use jrpxy.Util.IoBuffer.{BytesReader}
use jrpxy.Util.IoBuffer
use jrpxy.HttpMessage.Version.{HttpVersion, http10, http11}
use jrpxy.HttpMessage.Framing.{ParsedFraming, length, chunked, no_framing, is_no_framing}
use jrpxy.HttpMessage.Header.{get_header, framing}
use jrpxy.HttpMessage.Connection.{connection_is_persistent}
use jrpxy.HttpMessage.Message.{Response, is_informational}
use jrpxy.HttpMessage.Parse.{ParseSlots, HttpParse, MessageError, parse_response}
use jrpxy.HttpMessage.Parse.Head.{
  HeadError, parse_failed, too_long, read_failed, HeadPolled, poll_head,
}
use jrpxy.HttpMessage.Parse.Head
use jrpxy.Body.Reader.ContentLength.{ContentLengthBodyReader}
use jrpxy.Body.Reader.ContentLength
use jrpxy.Body.Reader.Chunked.{ChunkedBodyReader}
use jrpxy.Body.Reader.Chunked
use jrpxy.Body.Reader.Bodyless.{BodylessBodyReader}
use jrpxy.Body.Reader.Bodyless
use jrpxy.Body.Reader.Eof.{EofBodyReader}
use jrpxy.Body.Reader.Eof
use jrpxy.Backend.Error.{
  BackendError, read_error, first_read_eof, unexpected_eof, http_response_parse_error, header_error,
  invalid_connection_header, max_head_len_exceeded, http_switching_protocols_unsupported,
  http_processing_unsupported, framing_headers_on_informational_response,
  framing_headers_on_204_no_content_response, transfer_encoding_on_http10_server,
}

pub record BackendReader (I : Type 0) : Type 0 where
  pub reader : BytesReader I
  pub parse_slots : ParseSlots

unfoldable pub new_with_iobuffer : {I : Type 0} → BytesReader I → ℕ → BackendReader I
new_with_iobuffer reader max_headers = record {
  reader = reader;
  parse_slots = record { slot_count = max_headers };
}

unfoldable pub new : {I : Type 0} → I → ℕ → BackendReader I
unfolding new_with_iobuffer
new reader max_headers = new_with_iobuffer (IoBuffer.new reader) max_headers

unfoldable pub head_error : {E P : Type 0} → HeadError E P → BackendError E (MessageError P)
head_error (parse_failed e) = http_response_parse_error e
head_error (too_long len max) = max_head_len_exceeded len max
head_error (read_failed e) = read_error e
head_error Head.HeadError.first_read_eof = first_read_eof
head_error Head.HeadError.unexpected_eof = unexpected_eof

pub data BackendBodyReader (I : Type 0) : Type 0 where
  bodyless : BodylessBodyReader I → ParseSlots → (recyclable : Bool) → BackendBodyReader I
  cl : ContentLengthBodyReader I → ParseSlots → (recyclable : Bool) → BackendBodyReader I
  te : ChunkedBodyReader I → (recyclable : Bool) → BackendBodyReader I
  eof : EofBodyReader I → ParseSlots → BackendBodyReader I

pub record BackendStreamReader (I : Type 0) : Type 0 where
  pub allow_body : Bool
  pub max_head_length : ℕ
  pub max_chunk_header_length : ℕ
  pub reader : BackendReader I

pub data ResponseStream (I : Type 0) : Type 0 where
  final : Response → BackendBodyReader I → ResponseStream I
  informational : Response → BackendStreamReader I → ResponseStream I

module _ {I : Type 0} where
  unfoldable pub recyclable : BackendBodyReader I → Bool
  recyclable (bodyless r slots b) = b
  recyclable (cl r slots b) = b
  recyclable (te r b) = b
  recyclable (eof r slots) = false

  unfoldable pub drained : BackendBodyReader I → Bool
  drained (bodyless r slots b) = true
  drained (cl r slots b) = ContentLength.drained r
  drained (te r b) = Chunked.drained r
  drained (eof r slots) = Eof.drained r

  -- The `match` on the framing.
  unfoldable pub framed_reader :
      BackendReader I → ℕ → ℕ → Bool → ParsedFraming → BackendBodyReader I
  framed_reader br max_chunk_header_length max_head_length keep (length n) =
      cl (ContentLength.new n br.reader) br.parse_slots keep
  framed_reader br max_chunk_header_length max_head_length keep chunked =
      te (Chunked.new br.reader br.parse_slots max_chunk_header_length max_head_length) keep
  framed_reader br max_chunk_header_length max_head_length keep no_framing =
      bodyless (Bodyless.new br.reader) br.parse_slots keep

  unfoldable pub body_reader :
      Bool → BackendReader I → ℕ → ℕ → Bool → ParsedFraming → BackendBodyReader I
  unfolding framed_reader
  body_reader expect_body br max_chunk_header_length max_head_length keep f =
      if not expect_body
      then bodyless (Bodyless.new br.reader) br.parse_slots keep
      else if is_no_framing f && expect_body
      then eof (Eof.new br.reader) br.parse_slots
      else framed_reader br max_chunk_header_length max_head_length keep f

abbrev is_http10 : HttpVersion → Bool
is_http10 http10 = true
is_http10 http11 = false

-- `!matches!(code, 100..=199 | 204 | 304)`
unfoldable pub code_has_body : ℕ → Bool
code_has_body code = not (leb 100 code && leb code 199 || code == 204 || code == 304)

abbrev is_some : Option ℕ → Bool
is_some none = false
is_some (some n) = true

module _ {I E P : Type 0} where
  -- The end of `read`, for an informational code and for any other.
  unfoldable pub open_stream :
      Bool
      → ℕ
      → ℕ
      → BackendReader I
      → Response
      → ParsedFraming
      → Option ℕ
      → Result (ResponseStream I) (BackendError E (MessageError P))
  unfolding body_reader code_has_body
  open_stream allow_body max_head_length max_chunk_header_length br res f (some info_code) =
      if info_code == 101
      then err http_switching_protocols_unsupported
      else if info_code == 102
      then err http_processing_unsupported
      else ok (
          informational res (record {
            allow_body = allow_body;
            max_head_length = max_head_length;
            max_chunk_header_length = max_chunk_header_length;
            reader = br;
          }))
  open_stream allow_body max_head_length max_chunk_header_length br res f none = do
    keep ← map_err invalid_connection_header (connection_is_persistent res.headers res.version)
    ok (
        final res (
          body_reader (allow_body && code_has_body res.code) br max_chunk_header_length
            max_head_length keep f))

  -- The three refusals behind the framing.
  unfoldable pub check_framing :
      Bool
      → ℕ
      → ℕ
      → BackendReader I
      → Response
      → ParsedFraming
      → Result (ResponseStream I) (BackendError E (MessageError P))
  unfolding open_stream
  check_framing allow_body max_head_length max_chunk_header_length br res f =
      if res.code == 204 && not (is_no_framing f)
      then err framing_headers_on_204_no_content_response
      else if is_some (is_informational res) && not (is_no_framing f)
      then err framing_headers_on_informational_response
      else if is_http10 res.version
          && not (is_empty (get_header res.headers (codes "transfer-encoding")))
      then err transfer_encoding_on_http10_server
      else open_stream allow_body max_head_length max_chunk_header_length br res f
          (is_informational res)

  -- What follows the head in `read`.
  unfoldable pub open_response :
      Bool
      → ℕ
      → ℕ
      → BackendReader I
      → Response
      → Result (ResponseStream I) (BackendError E (MessageError P))
  unfolding check_framing
  open_response allow_body max_head_length max_chunk_header_length br res = do
    f ← map_err header_error (framing res.headers)
    check_framing allow_body max_head_length max_chunk_header_length br res f

  unfoldable pub read_outcome :
      Bool
      → ℕ
      → ℕ
      → ParseSlots
      → Poll (Result Response (HeadError E P))
      → BytesReader I
      → Poll (Result (ResponseStream I) (BackendError E (MessageError P)))
  unfolding head_error open_response
  read_outcome allow_body max_head_length max_chunk_header_length slots pending r = pending
  read_outcome allow_body max_head_length max_chunk_header_length slots (ready (err e)) r =
      ready (err (head_error e))
  read_outcome allow_body max_head_length max_chunk_header_length slots (ready (ok res)) r = ready (
      open_response allow_body max_head_length max_chunk_header_length
        (record { reader = r; parse_slots = slots }) res)

module _ {I E P : Type 0} (source : AsyncRead I E) (http : HttpParse P) where
  unfoldable pub head : ℕ → BackendReader I → HeadPolled I Response E P
  head max_head_length br =
      poll_head source (parse_response http br.parse_slots) (max_head_length + 1) max_head_length
        br.reader

  unfoldable pub read :
      Bool
      → ℕ
      → ℕ
      → BackendReader I
      → Option (Poll (Result (ResponseStream I) (BackendError E (MessageError P))) × BytesReader I)
  unfolding head read_outcome
  read allow_body max_head_length max_chunk_header_length br = elim (head max_head_length br) [
    | none ↦ none
    | some (outcome, r) ↦ some (
      read_outcome allow_body max_head_length max_chunk_header_length br.parse_slots outcome r,
      r,
    )
  ]

  -- `BackendStreamReader::read`: the next response behind an informational one.
  unfoldable pub read_next :
      BackendStreamReader I
      → Option (Poll (Result (ResponseStream I) (BackendError E (MessageError P))) × BytesReader I)
  unfolding read
  read_next s = read s.allow_body s.max_head_length s.max_chunk_header_length s.reader
