-- ===== src/Body/Reader/Chunked/Stream.antt =====
-- body/src/reader/chunked.rs: a chunk is the next bytes of the stream, and CRLF behind them.
use jrpxy.Prelude.{
  ℕ, Option, none, some, Bytes, codes, Result, ok, err, [], ◌++◌, ◌≡◌, ◌≢◌, refl, sym, ap, ◌∙◌,
  arith, length, subst, some-injective,
}
use jrpxy.Util.Async.{Poll, pending, ready, AsyncRead}
use jrpxy.Util.IoBuffer.{BytesReader, as_bytes}
use jrpxy.Util.IoBuffer.Fills.{IsValid}
use jrpxy.Util.IoBuffer.Flows.{Flows, Flows-refl}
use jrpxy.Body.Error.{BodyError}
use jrpxy.Body.Reader.ContentLength.Stream.{body_of}
use jrpxy.Body.Reader.Chunked.{
  ChunkBodyState, in_body, in_footer_need_cr, in_footer_need_lf, done, ChunkDataReader,
  ChunkHeadReader, finish_chunk, new_head, poll_chunk,
}
use jrpxy.Body.Reader.Chunked.Chunk.{Foot, Has, Keeps, poll_chunk-Polls}

abbrev pub HasNotFailed : {E : Type 0} → Poll (Result (Option Bytes) (BodyError E)) → Type 0
HasNotFailed (ready (err e)) = ⊥
HasNotFailed _ = Unit

none-ne-some : {A : Type 0} (a : A) → ◌≢◌ {A = Option A} none (some a)
none-ne-some a h = cc

module _ {I E : Type 0} (source : AsyncRead I E) where
  -- Polls of a chunk in a row that do not fail, with any lengths asked for; `out` is what they have returned.
  pub data Reads (c : ChunkDataReader I) : ChunkDataReader I → Bytes → Type 0 where
    start : Reads c c []
    poll :
        (max_len : ℕ) {t u : ChunkDataReader I} {o : Poll (Result (Option Bytes) (BodyError E))}
        {out out' : Bytes}
        → Reads c t out
        → poll_chunk source max_len t ≡ some (o, u)
        → HasNotFailed o
        → out' ≡ out ++ body_of o
        → Reads c u out'

  Has-of-Keeps :
      (r : BytesReader I) (size : ℕ) (o : Poll (Result (Option Bytes) (BodyError E)))
      (c : ChunkDataReader I) (out : Bytes)
      → HasNotFailed o
      → Keeps source r size o c out
      → Has source r size c (out ++ body_of o)
  Has-of-Keeps r size pending c out fine h = h
  Has-of-Keeps r size (ready (err e)) c out fine h = absurd fine
  Has-of-Keeps r size (ready (ok none)) c out fine h = h.0
  Has-of-Keeps r size (ready (ok (some bs))) c out fine h = h

  Polls-Has :
      (r : BytesReader I) (size max_len : ℕ) (t u : ChunkDataReader I)
      (o : Poll (Result (Option Bytes) (BodyError E))) (out : Bytes)
      → Has source r size t out
      → poll_chunk source max_len t ≡ some (o, u)
      → HasNotFailed o
      → Has source r size u (out ++ body_of o)
  Polls-Has r size max_len t u o out h e fine =
      let polls = poll_chunk-Polls source r size max_len t out h in
      let same = some-injective _ _ (sym polls.returns ∙ e) in
      Has-of-Keeps r size o u out fine
        (subst (λ p. Keeps source r size p.0 p.1 out) same polls.keeps)

  Reads-Has :
      (r : BytesReader I) (size : ℕ) {c t : ChunkDataReader I} {out : Bytes}
      → Has source r size c []
      → Reads c t out
      → Has source r size t out
  Reads-Has r size h start = h
  Reads-Has r size h (poll max_len {t} {u} {o} {out} reads e fine same) =
      rw same (Polls-Has r size max_len t u o out (Reads-Has r size h reads) e fine)

  at_end :
      (s : ChunkBodyState) (c : ChunkDataReader I) (h : ChunkHeadReader I)
      → c.state ≡ s
      → finish_chunk c ≡ some h
      → (c.state ≡ done) × (h.reader ≡ c.reader)
  unfolding finish_chunk new_head
  at_end in_body c h e f = absurd (none-ne-some h (rw (← f, finish_chunk, e) refl))
  at_end in_footer_need_cr c h e f = absurd (none-ne-some h (rw (← f, finish_chunk, e) refl))
  at_end in_footer_need_lf c h e f = absurd (none-ne-some h (rw (← f, finish_chunk, e) refl))
  at_end done c h e f =
      let head : ChunkHeadReader I =
        new_head c.reader c.parse_slots c.max_chunk_header_length c.max_trailer_length in
      let same : some head ≡ some h = rw (← f, finish_chunk, e) refl in
      let equal : head ≡ h = some-injective head h same in
      (e, ap (λ (x : ChunkHeadReader I). x.reader) (sym equal))

  -- A chunk of `n` bytes, read from a valid reader by polls in a row of which none has failed, with any lengths
  -- asked for, however the source cuts the stream: if the reader can then be finished, the polls have returned the
  -- next `n` bytes of the stream, CRLF came right behind them, and the reader handed on holds what comes after
  -- that. Nothing is said of a chunk that is polled again after a poll has failed.
  pub chunk_data_flow :
      (n : ℕ) (c t : ChunkDataReader I) {h : ChunkHeadReader I} {out : Bytes}
      → IsValid c.reader.buffer
      → c.state ≡ in_body
      → c.remaining ≡ n
      → Reads c t out
      → finish_chunk t ≡ some h
      → (length out ≡ n)
        × (arrived : Bytes) × (source.received h.reader.io ≡ source.received c.reader.io ++ arrived)
        × (as_bytes c.reader ++ arrived ≡ (out ++ codes "\r\n") ++ as_bytes h.reader)
  chunk_data_flow n c t {h} {out} v fresh whole reads fin =
      let first : Has source c.reader n c [] = record {
        foot = [];
        counts = omega (arith, whole);
        foots = subst (λ s. Foot s c.remaining []) (sym fresh) refl;
        flows = Flows-refl source c.reader v;
      } in
      let last = Reads-Has c.reader n first reads in
      let (over, same) = at_end t.state t h refl fin in
      let (foot, none_left) = subst (λ s. Foot s t.remaining last.foot) over last.foots in
      let flows =
        subst (λ (x : Bytes). Flows source c.reader h.reader (out ++ x)) foot
          (subst (λ x. Flows source c.reader x (out ++ last.foot)) (sym same) last.flows) in
      (omega (arith, last.counts, none_left), flows.arrived, flows.arrives, flows.flow)
