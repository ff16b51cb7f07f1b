-- ===== src/Body/Reader/Chunked/Sizes.antt =====
-- body/src/reader/chunked.rs: the loop of `poll_read_chunk` ends.
use jrpxy.Prelude.{
  ℕ, zero, suc, ◌+◌, ◌-◌, ◌<◌, ◌==◌, leb, if◌then◌else◌, Bytes, [], Result, ok, err, ◌≡◌, refl,
  arith, Bool-cases, inl, inr, if_then, if_else,
}
use jrpxy.Util.Async.{ready, AsyncRead}
use jrpxy.Util.IoBuffer.{BytesReader, as_bytes, len}
use jrpxy.Util.IoBuffer.Fills.{IsValid}
use jrpxy.Util.IoBuffer.Cuts.{split_to-CutsTo}
use jrpxy.Util.IoBuffer.Flows.{Flows-refl, Flows-of-CutsTo}
use jrpxy.HttpMessage.Parse.{HttpParse, Status, partial, complete}
use jrpxy.HttpMessage.Parse.Cuts.{as_bytes-length}
use jrpxy.Body.Error.{invalid_chunk_header}
use jrpxy.Body.Reader.{poll_ensure, poll_extend}
use jrpxy.Body.Reader.Ensures.{
  poll_ensure-Flows, poll_ensure-len, poll_extend-Flows, poll_extend-ok,
}
use jrpxy.Body.Reader.Chunked.{
  ChunkHeadReader, ChunkHeadReaderState, reading_size, reading_trailers, head_ready, next_data,
}
use jrpxy.Body.Reader.Chunked.Polls.{with_size, poll_read_chunk}
use jrpxy.Body.Reader.Chunked.Heads.{Ends, stops, Ends-trans, awaited-Ends, poll_trailers-Ends}

module _ {I E P : Type 0} (source : AsyncRead I E) (http : HttpParse P) where
  -- What is done behind the size of a chunk: it is over, or the trailer section is read.
  sized-Ends :
      (fuel chunk_size : ℕ) (chunk_header : Bytes) (h : ChunkHeadReader I)
      → IsValid h.reader.buffer
      → h.max_trailer_length + 1 < fuel
      → Ends source http h.reader (
          poll_read_chunk source http fuel (record h {
            state =
                if chunk_size == 0
                then reading_trailers chunk_header
                else head_ready (next_data chunk_size chunk_header);
          }))
  unfolding poll_read_chunk
  sized-Ends zero chunk_size chunk_header h v enough = absurd (omega (arith, enough))
  sized-Ends (suc fuel) chunk_size chunk_header h v enough =
      let trailers = reading_trailers chunk_header in
      let following = head_ready (next_data chunk_size chunk_header) in
      let Goal = λ (s : ChunkHeadReaderState).
        Ends source http h.reader
          (poll_read_chunk source http (suc fuel) (record h { state = s })) in
      elim (Bool-cases (chunk_size == 0)) [
        | inl last ↦ if_then following last Goal (
            poll_trailers-Ends source http (suc fuel) chunk_header (record h { state = trailers }) v
              (omega (arith, enough)) (omega arith))
        | inr more ↦ if_else trailers more Goal (record {
          outcome = ready (ok tt);
          rest = record h { state = following };
          returns = refl;
          taken = [];
          flows = Flows-refl source h.reader v;
          comes = (next_data chunk_size chunk_header, refl);
        })
      ]

  size-Ends :
      (fuel : ℕ) (h : ChunkHeadReader I) (m : Result (Status (ℕ × ℕ)) P)
      → IsValid h.reader.buffer
      → http.parse_chunk_size (as_bytes h.reader) ≡ m
      → h.max_trailer_length + 1 < fuel
      → ((r : BytesReader I)
          → IsValid r.buffer
          → len h.reader < len r
          → len h.reader < h.max_chunk_header_length
          → Ends source http r (poll_read_chunk source http fuel (record h { reader = r })))
      → Ends source http h.reader (with_size source http (poll_read_chunk source http fuel) h m)
  unfolding with_size
  size-Ends fuel h (err x) v e enough next =
      stops source http h.reader h invalid_chunk_header (Flows-refl source h.reader v)
  size-Ends fuel h (ok partial) v e enough next =
      elim (Bool-cases (leb h.max_chunk_header_length (len h.reader))) [
        | inl full ↦
            rw (full, with_size) (stops source http h.reader h _ (Flows-refl source h.reader v))
        | inr room ↦
            let f = poll_extend-Flows source h.reader v in
            rw (room, with_size)
              (awaited-Ends source http h.reader
                (record h { reader = (poll_extend source h.reader).1 })
                (poll_extend source h.reader).0 _ f
                (λ good.
                  next (poll_extend source h.reader).1 f.valid
                    (poll_extend-ok source h.reader v good) (ground (arith, room))))
      ]
  size-Ends fuel h (ok (complete (n, chunk_size))) v e enough next =
      let le = http.chunk_size_inside (as_bytes h.reader) n chunk_size e in
      let (bs, r', cut, cuts, count, left) =
        split_to-CutsTo h.reader v n (omega (arith, le, as_bytes-length h.reader v)) in
      rw (cut, with_size)
        (Ends-trans source http (Flows-of-CutsTo source cuts)
          (sized-Ends fuel chunk_size bs (record h { reader = r' }) cuts.valid enough))

  by_state :
      (fuel : ℕ) (h : ChunkHeadReader I) (s : ChunkHeadReaderState)
      → h.state ≡ s
      → IsValid h.reader.buffer
      → (h.max_chunk_header_length - len h.reader) + h.max_trailer_length + 2 < suc fuel
      → ((r : BytesReader I)
          → IsValid r.buffer
          → len h.reader < len r
          → len h.reader < h.max_chunk_header_length
          → Ends source http r (poll_read_chunk source http fuel (record h { reader = r })))
      → Ends source http h.reader (poll_read_chunk source http (suc fuel) h)
  unfolding poll_read_chunk
  by_state fuel h (head_ready n) e v enough next =
      rw (e, poll_read_chunk)
        (record {
          outcome = ready (ok tt);
          rest = h;
          returns = refl;
          taken = [];
          flows = Flows-refl source h.reader v;
          comes = (n, e);
        })
  by_state fuel h (reading_trailers chunk_header) e v enough next =
      rw (e, poll_read_chunk)
        (poll_trailers-Ends source http (suc fuel) chunk_header h v (omega (arith, enough))
          (omega arith))
  by_state fuel h reading_size e v enough next =
      let f = poll_ensure-Flows source h.reader v in
      let r = (poll_ensure source h.reader).1 in
      let h' : ChunkHeadReader I = record h { reader = r } in
      rw (e, poll_read_chunk)
        (awaited-Ends source http h.reader h' (poll_ensure source h.reader).0 _ f (λ good.
          size-Ends fuel h' (http.parse_chunk_size (as_bytes r)) f.valid refl
            (omega (arith, enough))
            (λ r' v' more room.
              next r' v' (omega (arith, more, poll_ensure-len source h.reader v))
                (omega (arith, room, poll_ensure-len source h.reader v)))))

  -- From a valid reader, a poll for the head of a chunk neither panics nor runs out of fuel beyond the room for the
  -- chunk's header and the trailer section, for any source. It takes bytes off the front of the stream only,
  -- and when it reports success the next chunk or the end of the body is there for `finish`.
  pub poll_read_chunk-Ends :
      (fuel : ℕ) (h : ChunkHeadReader I)
      → IsValid h.reader.buffer
      → (h.max_chunk_header_length - len h.reader) + h.max_trailer_length + 2 < fuel
      → Ends source http h.reader (poll_read_chunk source http fuel h)
  poll_read_chunk-Ends zero h v enough = absurd (omega (arith, enough))
  poll_read_chunk-Ends (suc fuel) h v enough =
      by_state fuel h h.state refl v enough (λ r v' more room.
        poll_read_chunk-Ends fuel (record h { reader = r }) v' (omega (arith, enough, more, room)))
