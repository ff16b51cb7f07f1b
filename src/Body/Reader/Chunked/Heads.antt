-- ===== src/Body/Reader/Chunked/Heads.antt =====
-- body/src/reader/chunked.rs: the loop of `poll_read_chunk` that reads the trailer section ends.
use jrpxy.Prelude.{
  ℕ, zero, suc, ◌+◌, ◌<◌, leb, none, some, List, Bytes, [], ◌++◌, Result, ok, err, ◌≡◌, refl, arith,
  Bool-cases, inl, inr,
}
use jrpxy.Util.Async.{Poll, pending, ready, AsyncRead}
use jrpxy.Util.IoBuffer.{BytesReader, as_bytes, len}
use jrpxy.Util.IoBuffer.Fills.{IsValid}
use jrpxy.Util.IoBuffer.Flows.{Flows, Flows-refl, Flows-trans, Flows-of-CutsTo}
use jrpxy.HttpMessage.Header.{new}
use jrpxy.HttpMessage.Parse.{
  HttpParse, HeaderOffset, Status, partial, complete, parse_headers, populate_headers,
}
use jrpxy.HttpMessage.Parse.Cuts.{take_head-some, populate_headers-some, as_bytes-length}
use jrpxy.Body.Error.{BodyError}
use jrpxy.Body.Reader.{Polled, poll_ensure, poll_extend}
use jrpxy.Body.Reader.Ensures.{
  poll_ensure-Flows, poll_ensure-len, poll_extend-Flows, poll_extend-ok,
}
use jrpxy.Body.Reader.Chunked.{
  ChunkHeadReader, head_ready, PollNextChunk, next_final, map_trailer_error, awaited,
}
use jrpxy.Body.Reader.Chunked.Polls.{with_trailers, poll_trailers}

module _ {I E P : Type 0} (source : AsyncRead I E) (http : HttpParse P) where
  -- Success means that `finish` may be called.
  abbrev pub Comes : Poll (Result Unit (BodyError E)) → ChunkHeadReader I → Type 0
  Comes (ready (ok _)) rest = (next : PollNextChunk) × (rest.state ≡ head_ready next)
  Comes _ rest = Unit

  -- A poll has an outcome: it neither panics nor runs out of fuel. `taken` is what has left the stream.
  pub record Ends (r : BytesReader I) (p : Polled (ChunkHeadReader I) Unit E) : Type 0 where
    pub outcome : Poll (Result Unit (BodyError E))
    pub rest : ChunkHeadReader I
    pub returns : p ≡ some (outcome, rest)
    pub taken : Bytes
    pub flows : Flows source r rest.reader taken
    pub comes : Comes outcome rest

  pub stops :
      (r : BytesReader I) (h : ChunkHeadReader I) (e : BodyError E)
      → Flows source r h.reader []
      → Ends r (some (ready (err e), h))
  stops r h e f = record {
    outcome = ready (err e);
    rest = h;
    returns = refl;
    taken = [];
    flows = f;
    comes = tt;
  }

  pub Ends-trans :
      {r r' : BytesReader I} {bs : Bytes} {p : Polled (ChunkHeadReader I) Unit E}
      → Flows source r r' bs
      → Ends r' p
      → Ends r p
  Ends-trans {bs = bs} f d = record {
    outcome = d.outcome;
    rest = d.rest;
    returns = d.returns;
    taken = bs ++ d.taken;
    flows = Flows-trans source f d.flows;
    comes = d.comes;
  }

  pub awaited-Ends :
      (r : BytesReader I) (h : ChunkHeadReader I) (p : Poll (Result Unit (BodyError E)))
      (next : Polled (ChunkHeadReader I) Unit E)
      → Flows source r h.reader []
      → (p ≡ ready (ok tt) → Ends h.reader next)
      → Ends r (awaited p h next)
  unfolding awaited
  awaited-Ends r h pending next f k = record {
    outcome = pending;
    rest = h;
    returns = refl;
    taken = [];
    flows = f;
    comes = tt;
  }
  awaited-Ends r h (ready (err e)) next f k = stops r h e f
  awaited-Ends r h (ready (ok _)) next f k = Ends-trans f (k refl)

  trailers-Ends :
      (k : ChunkHeadReader I → Polled (ChunkHeadReader I) Unit E) (chunk_header : Bytes)
      (h : ChunkHeadReader I) (m : Result (Status (ℕ × List HeaderOffset)) P)
      → IsValid h.reader.buffer
      → http.parse_headers h.parse_slots.slot_count (as_bytes h.reader) ≡ m
      → ((r : BytesReader I)
          → IsValid r.buffer
          → len h.reader < len r
          → len h.reader < h.max_trailer_length
          → Ends r (k (record h { reader = r })))
      → Ends h.reader (elim (parse_headers http h.parse_slots h.reader) [
        | none ↦ none
        | some (parsed, r') ↦
            with_trailers source http k chunk_header (record h { reader = r' }) parsed
      ])
  unfolding parse_headers with_trailers map_trailer_error
  trailers-Ends k chunk_header h (err x) v e next =
      rw (e, parse_headers) (stops h.reader h _ (Flows-refl source h.reader v))
  trailers-Ends k chunk_header h (ok partial) v e next =
      elim (Bool-cases (leb h.max_trailer_length (len h.reader))) [
        | inl full ↦
            rw (e, parse_headers) (rw full (stops h.reader h _ (Flows-refl source h.reader v)))
        | inr room ↦
            let f = poll_extend-Flows source h.reader v in
            rw (e, parse_headers)
              (rw room (
                awaited-Ends h.reader (record h { reader = (poll_extend source h.reader).1 })
                  (poll_extend source h.reader).0 _ f
                  (λ good.
                    next (poll_extend source h.reader).1 f.valid
                      (poll_extend-ok source h.reader v good) (ground (arith, room)))))
      ]
  trailers-Ends k chunk_header h (ok (complete (n, hs))) v e next =
      let (le, fields) = http.headers_inside h.parse_slots.slot_count (as_bytes h.reader) n hs e in
      let (trailers, bs, r', cuts, same, _) =
        take_head-some {P = P} (λ _ _. Unit) h.reader n (λ buf. populate_headers hs buf new) v
          (omega (arith, le, as_bytes-length h.reader v))
          (λ buf rest size splits.
            let (made, e', texts) = populate_headers-some hs buf new (rw size fields) in
            (made, e', tt)) in
      rw (e, parse_headers)
        (rw same (record {
          outcome = ready (ok tt);
          rest = record h { reader = r'; state = head_ready (next_final chunk_header trailers) };
          returns = refl;
          taken = bs;
          flows = Flows-of-CutsTo source cuts;
          comes = (next_final chunk_header trailers, refl);
        }))

  pub poll_trailers-Ends :
      (fuel : ℕ) (chunk_header : Bytes) (h : ChunkHeadReader I)
      → IsValid h.reader.buffer
      → h.max_trailer_length < len h.reader + fuel
      → 0 < fuel
      → Ends h.reader (poll_trailers source http fuel chunk_header h)
  unfolding poll_trailers
  poll_trailers-Ends zero chunk_header h v enough pos = absurd (omega (arith, pos))
  poll_trailers-Ends (suc fuel) chunk_header h v enough pos =
      let f = poll_ensure-Flows source h.reader v in
      let r = (poll_ensure source h.reader).1 in
      let h' : ChunkHeadReader I = record h { reader = r } in
      awaited-Ends h.reader h' (poll_ensure source h.reader).0 _ f (λ good.
        trailers-Ends (poll_trailers source http fuel chunk_header) chunk_header h'
          (http.parse_headers h.parse_slots.slot_count (as_bytes r)) f.valid refl
          (λ r' v' more room.
            poll_trailers-Ends fuel chunk_header (record h { reader = r' }) v'
              (omega (arith, enough, more, room, poll_ensure-len source h.reader v))
              (omega (arith, enough, room, poll_ensure-len source h.reader v))))
