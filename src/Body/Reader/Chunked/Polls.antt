-- ===== src/Body/Reader/Chunked/Polls.antt =====
-- body/src/reader/chunked.rs: the loops that read a chunk's header, the trailer section, and the whole body, on
-- fuel. A round of the first two that goes on has got more data, of which the maximal lengths bound what is
-- kept; the states of the third only go round if a chunk ends.
use jrpxy.Prelude.{
  ℕ, zero, suc, ◌==◌, leb, if◌then◌else◌, Option, none, some, Bytes, Result, ok, err,
}
use jrpxy.Util.Async.{pending, ready, AsyncRead}
use jrpxy.Util.IoBuffer.{as_bytes, len, split_to}
use jrpxy.HttpMessage.Header.{Headers}
use jrpxy.HttpMessage.Parse.{HttpParse, MessageError, Status, partial, complete, parse_headers}
use jrpxy.Body.Error.{
  max_length_exceeded, trailer_error, invalid_chunk_header, chunk_header_too_long, read_after_error,
}
use jrpxy.Body.Reader.{Polled, poll_ensure, poll_extend, drain_size}
use jrpxy.Body.Reader.Chunked.{
  ChunkDataReader, ChunkHeadReader, reading_size, reading_trailers, head_ready, next_data,
  next_final, NextChunk, data_chunk, final_chunk, ChunkedBodyChunkStream, in_chunk, between_chunk,
  stream_done, ChunkedBodyReader, map_trailer_error, awaited, finish_chunk, finish_head, poll_chunk,
}

module _ {I E P : Type 0} (source : AsyncRead I E) (http : HttpParse P) where
  -- A parse of the trailer section; `k` is the next round.
  unfoldable pub with_trailers :
      (ChunkHeadReader I → Polled (ChunkHeadReader I) Unit E)
      → Bytes
      → ChunkHeadReader I
      → Result (Option Headers) (MessageError P)
      → Polled (ChunkHeadReader I) Unit E
  unfolding map_trailer_error awaited
  with_trailers k chunk_header h (err e) = elim (map_trailer_error http e) [
    | none ↦ none
    | some b ↦ some (ready (err b), h)
  ]
  with_trailers k chunk_header h (ok none) =
      let (outcome, r) = poll_extend source h.reader in
      let h' : ChunkHeadReader I = record h { reader = r } in
      if leb h.max_trailer_length (len h.reader)
      then some (ready (err (trailer_error (max_length_exceeded h.max_trailer_length))), h)
      else awaited outcome h' (k h')
  with_trailers k chunk_header h (ok (some trailers)) =
      some (ready (ok tt), record h { state = head_ready (next_final chunk_header trailers) })

  unfoldable pub poll_trailers : ℕ → Bytes → ChunkHeadReader I → Polled (ChunkHeadReader I) Unit E
  unfolding with_trailers awaited
  poll_trailers zero chunk_header h = none
  poll_trailers (suc fuel) chunk_header h =
      let (outcome, r) = poll_ensure source h.reader in
      awaited outcome (record h { reader = r })
        (elim (parse_headers http h.parse_slots r) [
          | none ↦ none
          | some (parsed, r') ↦
              with_trailers (poll_trailers fuel chunk_header) chunk_header
                (record h { reader = r' }) parsed
        ])

  -- A parse of the chunk's size; `k` is the next round.
  unfoldable pub with_size :
      (ChunkHeadReader I → Polled (ChunkHeadReader I) Unit E)
      → ChunkHeadReader I
      → Result (Status (ℕ × ℕ)) P
      → Polled (ChunkHeadReader I) Unit E
  unfolding awaited
  with_size k h (err e) = some (ready (err invalid_chunk_header), h)
  with_size k h (ok partial) =
      let (outcome, r) = poll_extend source h.reader in
      let h' : ChunkHeadReader I = record h { reader = r } in
      if leb h.max_chunk_header_length (len h.reader)
      then some (ready (err (chunk_header_too_long h.max_chunk_header_length)), h)
      else awaited outcome h' (k h')
  with_size k h (ok (complete (header_len, chunk_size))) = elim (split_to h.reader header_len) [
    | none ↦ none
    | some (chunk_header, r) ↦ k (record h {
      reader = r;
      state =
          if chunk_size == 0
          then reading_trailers chunk_header
          else head_ready (next_data chunk_size chunk_header);
    })
  ]

  unfoldable pub poll_read_chunk : ℕ → ChunkHeadReader I → Polled (ChunkHeadReader I) Unit E
  unfolding with_size awaited poll_trailers
  poll_read_chunk zero h = none
  poll_read_chunk (suc fuel) h = elim h.state [
    | reading_size ↦
        let (outcome, r) = poll_ensure source h.reader in
        let h' : ChunkHeadReader I = record h { reader = r } in
        awaited outcome h'
          (with_size (poll_read_chunk fuel) h' (http.parse_chunk_size (as_bytes r)))
    | reading_trailers chunk_header ↦ poll_trailers (suc fuel) chunk_header h
    | head_ready next ↦ some (ready (ok tt), h)
  ]

  -- An outcome of the data reader; `k` is the next round. An error leaves nothing behind.
  unfoldable pub with_chunk :
      (ChunkedBodyReader I → Polled (ChunkedBodyReader I) (Option Bytes) E)
      → Polled (ChunkDataReader I) (Option Bytes) E
      → Polled (ChunkedBodyReader I) (Option Bytes) E
  with_chunk k none = none
  with_chunk k (some (pending, c)) = some (pending, record { inner = some (in_chunk c) })
  with_chunk k (some (ready (err e), c)) = some (ready (err e), record { inner = none })
  with_chunk k (some (ready (ok (some bs)), c)) =
      some (ready (ok (some bs)), record { inner = some (in_chunk c) })
  with_chunk k (some (ready (ok none), c)) = elim (finish_chunk c) [
    | none ↦ none
    | some h ↦ k (record { inner = some (between_chunk h) })
  ]

  unfoldable pub stream_of : NextChunk I → ChunkedBodyChunkStream I
  stream_of (data_chunk c) = in_chunk c
  stream_of (final_chunk f) = stream_done f

  -- An outcome of the head reader.
  unfoldable pub with_head :
      (ChunkedBodyReader I → Polled (ChunkedBodyReader I) (Option Bytes) E)
      → Polled (ChunkHeadReader I) Unit E
      → Polled (ChunkedBodyReader I) (Option Bytes) E
  unfolding stream_of
  with_head k none = none
  with_head k (some (pending, h)) = some (pending, record { inner = some (between_chunk h) })
  with_head k (some (ready (err e), h)) = some (ready (err e), record { inner = none })
  with_head k (some (ready (ok _), h)) = elim (finish_head h) [
    | none ↦ none
    | some next ↦ k (record { inner = some (stream_of next) })
  ]

  unfoldable pub poll_read :
      ℕ → ℕ → ChunkedBodyReader I → Polled (ChunkedBodyReader I) (Option Bytes) E
  unfolding with_chunk with_head poll_read_chunk
  poll_read zero max_len b = none
  poll_read (suc fuel) max_len b = elim b.inner [
    | none ↦ some (ready (err read_after_error), b)
    | some (in_chunk c) ↦ with_chunk (poll_read fuel max_len) (poll_chunk source max_len c)
    | some (between_chunk h) ↦ with_head (poll_read fuel max_len) (poll_read_chunk (suc fuel) h)
    | some (stream_done f) ↦ some (ready (ok none), b)
  ]

  unfoldable pub poll_drain : ℕ → ChunkedBodyReader I → Polled (ChunkedBodyReader I) Unit E
  unfolding poll_read
  poll_drain zero b = none
  poll_drain (suc fuel) b = elim (poll_read (suc fuel) drain_size b) [
    | none ↦ none
    | some (pending, b') ↦ some (pending, b')
    | some (ready (err e), b') ↦ some (ready (err e), b')
    | some (ready (ok none), b') ↦ some (ready (ok tt), b')
    | some (ready (ok (some _)), b') ↦ poll_drain fuel b'
  ]
