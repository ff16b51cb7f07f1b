-- ===== src/Body/Reader/Chunked.antt =====
-- body/src/reader/chunked.rs. A poll that panics has no result (`none`), nor has one whose loop runs out of the
-- fuel. A chunk's extensions are kept but never looked at.
pub mod Chunk
pub mod Stream
pub mod Polls
pub mod Heads
pub mod Sizes
use jrpxy.Prelude.{
  ℕ, zero, suc, ◌-◌, Bool, true, false, ◌==◌, leb, if◌then◌else◌, Option, none, some, Bytes, min,
  Result, ok, err,
}
use jrpxy.Util.Async.{Poll, pending, ready, AsyncRead}
use jrpxy.Util.IoBuffer.{BytesReader, as_bytes, len, split_to, get_u8}
use jrpxy.HttpMessage.Header.{Headers}
use jrpxy.HttpMessage.Parse.{
  ParseSlots, HttpParse, MessageError, parse, http_version, not_built, partial, complete,
  parse_headers,
}
use jrpxy.Body.Error.{
  BodyError, TrailerError, invalid_field, too_many_fields, max_length_exceeded, trailer_error,
  invalid_chunk_header, chunk_header_too_long, invalid_chunk_footer, read_after_error,
}
use jrpxy.Body.Reader.{Polled, poll_ensure, poll_extend, drain_size}

pub data ChunkBodyState : Type 0 where
  in_body in_footer_need_cr in_footer_need_lf done : ChunkBodyState

pub record ChunkDataReader (I : Type 0) : Type 0 where
  pub reader : BytesReader I
  pub parse_slots : ParseSlots
  pub max_chunk_header_length : ℕ
  pub max_trailer_length : ℕ
  pub size : ℕ
  pub extensions : Bytes
  pub remaining : ℕ
  pub state : ChunkBodyState

pub data PollNextChunk : Type 0 where
  next_data : (size : ℕ) (chunk_header : Bytes) → PollNextChunk
  next_final : (chunk_header : Bytes) (trailers : Headers) → PollNextChunk

pub data ChunkHeadReaderState : Type 0 where
  reading_size : ChunkHeadReaderState
  reading_trailers : Bytes → ChunkHeadReaderState
  head_ready : PollNextChunk → ChunkHeadReaderState

pub record ChunkHeadReader (I : Type 0) : Type 0 where
  pub reader : BytesReader I
  pub parse_slots : ParseSlots
  pub max_chunk_header_length : ℕ
  pub max_trailer_length : ℕ
  pub state : ChunkHeadReaderState

pub record FinalChunkReader (I : Type 0) : Type 0 where
  pub reader : BytesReader I
  pub parse_slots : ParseSlots
  pub extensions : Bytes
  pub trailers : Headers

pub data NextChunk (I : Type 0) : Type 0 where
  data_chunk : ChunkDataReader I → NextChunk I
  final_chunk : FinalChunkReader I → NextChunk I

pub data ChunkedBodyChunkStream (I : Type 0) : Type 0 where
  in_chunk : ChunkDataReader I → ChunkedBodyChunkStream I
  between_chunk : ChunkHeadReader I → ChunkedBodyChunkStream I
  stream_done : FinalChunkReader I → ChunkedBodyChunkStream I

pub record ChunkedBodyReader (I : Type 0) : Type 0 where
  pub inner : Option (ChunkedBodyChunkStream I)

-- A panic on what `parse_headers` does not produce.
unfoldable pub map_trailer_error :
    {P E : Type 0} → HttpParse P → MessageError P → Option (BodyError E)
map_trailer_error http (parse e) =
    some (trailer_error (if http.too_many_headers e then too_many_fields else invalid_field))
map_trailer_error http (http_version v) = none
map_trailer_error http (not_built e) = none

module _ {I : Type 0} where
  unfoldable pub new_head : BytesReader I → ParseSlots → ℕ → ℕ → ChunkHeadReader I
  new_head reader parse_slots max_chunk_header_length max_trailer_length = record {
    reader = reader;
    parse_slots = parse_slots;
    max_chunk_header_length = max_chunk_header_length;
    max_trailer_length = max_trailer_length;
    state = reading_size;
  }

  unfoldable pub new : BytesReader I → ParseSlots → ℕ → ℕ → ChunkedBodyReader I
  unfolding new_head
  new reader parse_slots max_chunk_header_length max_trailer_length = record {
    inner =
        some
          (between_chunk (new_head reader parse_slots max_chunk_header_length max_trailer_length));
  }

  unfoldable pub drained : ChunkedBodyReader I → Bool
  drained r = elim r.inner [ none ↦ true | some s ↦ elim s [ stream_done _ ↦ true | _ ↦ false ] ]

  unfoldable pub into_parts : FinalChunkReader I → BytesReader I × ParseSlots × Headers
  into_parts r = (r.reader, r.parse_slots, r.trailers)

  -- It panics before the end of the body, and after an error.
  unfoldable pub finish : ChunkedBodyReader I → Option (BytesReader I × ParseSlots × Headers)
  unfolding into_parts
  finish r = elim r.inner [
    | none ↦ none
    | some s ↦ elim s [ stream_done f ↦ some (into_parts f) | _ ↦ none ]
  ]

  unfoldable pub finish_chunk : ChunkDataReader I → Option (ChunkHeadReader I)
  unfolding new_head
  finish_chunk c = elim c.state [
    | done ↦ some (new_head c.reader c.parse_slots c.max_chunk_header_length c.max_trailer_length)
    | _ ↦ none
  ]

  next_chunk : ChunkHeadReader I → PollNextChunk → NextChunk I
  next_chunk h (next_data size chunk_header) = data_chunk (record {
    reader = h.reader;
    parse_slots = h.parse_slots;
    max_chunk_header_length = h.max_chunk_header_length;
    max_trailer_length = h.max_trailer_length;
    size = size;
    extensions = chunk_header;
    remaining = size;
    state = in_body;
  })
  next_chunk h (next_final chunk_header trailers) = final_chunk (record {
    reader = h.reader;
    parse_slots = h.parse_slots;
    extensions = chunk_header;
    trailers = trailers;
  })

  unfoldable pub finish_head : ChunkHeadReader I → Option (NextChunk I)
  unfolding next_chunk
  finish_head h = elim h.state [ head_ready next ↦ some (next_chunk h next) | _ ↦ none ]

-- `if let Err(e) = ready!(…) { return … }`: what is done if the poll is ready with success.
unfoldable pub awaited :
    {S A E : Type 0} → Poll (Result Unit (BodyError E)) → S → Polled S A E → Polled S A E
awaited pending s next = some (pending, s)
awaited (ready (err e)) s next = some (ready (err e), s)
awaited (ready (ok _)) s next = next

module _ {I E : Type 0} (source : AsyncRead I E) where
  -- `InBody` with data left in the chunk.
  unfoldable pub chunk_data : ℕ → ChunkDataReader I → Polled (ChunkDataReader I) (Option Bytes) E
  unfolding awaited
  chunk_data max_len c =
      let (outcome, r) = poll_ensure source c.reader in
      let at = min (min c.remaining (len r)) max_len in
      awaited outcome (record c { reader = r })
        (elim (split_to r at) [
          | none ↦ none
          | some (bs, r') ↦
              some (ready (ok (some bs)), record c { reader = r'; remaining = c.remaining - at })
        ])

  -- A byte of the footer: `wanted` leads to the state `next`, from which the loop goes on with `k`.
  unfoldable pub chunk_footer :
      ℕ
      → ChunkBodyState
      → (ChunkDataReader I → Polled (ChunkDataReader I) (Option Bytes) E)
      → ChunkDataReader I
      → Polled (ChunkDataReader I) (Option Bytes) E
  unfolding awaited
  chunk_footer wanted next k c =
      let (outcome, r) = poll_ensure source c.reader in
      awaited outcome (record c { reader = r })
        (elim (get_u8 r) [
          | none ↦ none
          | some (b, r') ↦
              let c' : ChunkDataReader I = record c { reader = r' } in
              if b == wanted
              then k (record c' { state = next })
              else some (ready (err (invalid_chunk_footer wanted b)), c')
        ])

  -- The rounds of the loop of `ChunkDataReader::poll_read` behind each state: the states only go on.
  unfoldable pub poll_need_lf : ChunkDataReader I → Polled (ChunkDataReader I) (Option Bytes) E
  unfolding chunk_footer
  poll_need_lf c = chunk_footer b'\n' done (λ c'. some (ready (ok none), c')) c

  unfoldable pub poll_need_cr : ChunkDataReader I → Polled (ChunkDataReader I) (Option Bytes) E
  unfolding chunk_footer poll_need_lf
  poll_need_cr c = chunk_footer b'\r' in_footer_need_lf poll_need_lf c

  unfoldable pub poll_in_body : ℕ → ChunkDataReader I → Polled (ChunkDataReader I) (Option Bytes) E
  unfolding chunk_data poll_need_cr
  poll_in_body max_len c =
      if c.remaining == 0
      then poll_need_cr (record c { state = in_footer_need_cr })
      else chunk_data max_len c

  unfoldable pub poll_chunk : ℕ → ChunkDataReader I → Polled (ChunkDataReader I) (Option Bytes) E
  unfolding poll_in_body poll_need_cr poll_need_lf
  poll_chunk max_len c = elim c.state [
    | in_body ↦ poll_in_body max_len c
    | in_footer_need_cr ↦ poll_need_cr c
    | in_footer_need_lf ↦ poll_need_lf c
    | done ↦ some (ready (ok none), c)
  ]
