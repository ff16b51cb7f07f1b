-- ===== src/Body/Writer/ContentLength/Moves.antt =====
-- body/src/writer/content_length.rs: the moves of the writer, each by what it sends.
use jrpxy.Prelude.{
  ℕ, ◌+◌, ◌≤◌, leb, ltb, false, Bytes, Result, ok, [], ◌++◌, ◌≡◌, refl, sym, ◌∙◌, arith, Bool-cases,
  inl, inr, length, u64_max, append-nil, ok-injective, err-ne-ok, subst,
}
use jrpxy.Util.Async.{Poll, AsyncWrite, accepted}
use jrpxy.Body.Error.{BodyError, body_overflow, incomplete_body}
use jrpxy.Body.Writer.{checked_add}
use jrpxy.Body.Writer.Bounded.{poll_write_bounded-Wrote}
use jrpxy.Body.Writer.ContentLength.{
  Ready, Open, Write, Close, Finish, Abort, open_chunk, finish, into_write, into_close, into_ready,
  poll_write, poll_finish, poll_abort, abort,
}

pub data Writer (O : Type 0) : Type 0 where
  in_ready : Ready O → Writer O
  in_open : Open O → Writer O
  in_write : Write O → Writer O
  in_close : Close O → Writer O
  in_finish : Finish O → Writer O
  in_abort : Abort O → Writer O

module _ {O : Type 0} where
  abbrev pub sink_of : Writer O → O
  sink_of (in_ready s) = s.writer
  sink_of (in_open s) = s.writer
  sink_of (in_write s) = s.writer
  sink_of (in_close s) = s.writer
  sink_of (in_finish s) = s.writer
  sink_of (in_abort s) = s.writer

  -- `n` bytes have been sent, of a body of `total`.
  abbrev pub Counts : ℕ → ℕ → Writer O → Type 0
  Counts total n (in_ready s) = (s.length ≡ total) × (s.offset ≡ n) × (n ≤ total)
  Counts total n (in_open s) =
      (s.total_length ≡ total) × (s.offset ≡ n) × (n + s.chunk_length ≤ total)
  Counts total n (in_write s) =
      (s.total_length ≡ total)
      × (s.offset + s.chunk_offset ≡ n)
      × (s.chunk_offset ≤ s.chunk_length)
      × (s.offset + s.chunk_length ≤ total)
  Counts total n (in_close s) = (s.total_length ≡ total) × (s.offset ≡ n) × (n ≤ total)
  Counts total n (in_finish s) = n ≡ total
  Counts total n (in_abort s) = n ≤ total

module _ {O E : Type 0} (sink : AsyncWrite O E) where
  -- What a poll of the writer has sent.
  abbrev pub sent_by : Poll (Result ℕ (BodyError E)) → Bytes → Bytes
  sent_by outcome buffer = accepted outcome buffer

  -- A move of the writer, with the bytes that it sends.
  pub data Step : Writer O → Bytes → Writer O → Type 0 where
    opens :
        (n : ℕ) {r : Ready O} {o : Open O}
        → open_chunk {E = E} n r ≡ ok o
        → Step (in_ready r) [] (in_open o)
    starts :
        {o : Open O} {w : Write O} → into_write {E = E} o ≡ ok w → Step (in_open o) [] (in_write w)
    writes :
        (buffer : Bytes) {w : Write O}
        → Step
            (in_write w)
            (sent_by (poll_write sink buffer w).0 buffer)
            (in_write (poll_write sink buffer w).1)
    closes :
        {w : Write O} {c : Close O}
        → into_close {E = E} w ≡ ok c
        → Step (in_write w) [] (in_close c)
    returns :
        {c : Close O} {r : Ready O}
        → into_ready {E = E} c ≡ ok r
        → Step (in_close c) [] (in_ready r)
    finishes :
        {r : Ready O} {f : Finish O} → finish {E = E} r ≡ ok f → Step (in_ready r) [] (in_finish f)
    flushes : {f : Finish O} → Step (in_finish f) [] (in_finish (poll_finish sink f).1)
    aborts : {r : Ready O} → Step (in_ready r) [] (in_abort (abort r))
    abort_flushes : {a : Abort O} → Step (in_abort a) [] (in_abort (poll_abort sink a).1)

  pub record Kept (total n : ℕ) (s : Writer O) (bs : Bytes) (s' : Writer O) : Type 0 where
    pub counts : Counts total (n + length bs) s'
    pub sends : sink.sent (sink_of s') ≡ sink.sent (sink_of s) ++ bs

  write-Kept :
      (total n : ℕ) (buffer : Bytes) (w : Write O)
      → Counts total n (in_write w)
      → Kept total n
          (in_write w)
          (sent_by (poll_write sink buffer w).0 buffer)
          (in_write (poll_write sink buffer w).1)
  unfolding poll_write
  write-Kept total n buffer w (same, at, within, fits) =
      let wrote = poll_write_bounded-Wrote sink w.chunk_length w.chunk_offset buffer w.writer in
      record {
        counts = (same, omega (arith, at, wrote.counts), wrote.bounded within, fits);
        sends = wrote.sends;
      }

  opened :
      (n : ℕ) (r : Ready O) (o : Open O)
      → open_chunk {E = E} n r ≡ ok o
      → (r.offset + n ≤ r.length)
        × (record {
          writer = r.writer;
          total_length = r.length;
          offset = r.offset;
          chunk_length = n;
        }
            ≡ o)
  unfolding open_chunk checked_add
  opened n r o h = elim (Bool-cases (leb (r.offset + n) u64_max)) [
    | inr a ↦ absurd (
        err-ne-ok {E = BodyError E} {e = body_overflow r.length} {a = o}
          (rw (← h, open_chunk, checked_add, a) refl))
    | inl a ↦ elim (Bool-cases (ltb r.length (r.offset + n))) [
      | inl b ↦ absurd (
          err-ne-ok {E = BodyError E} {e = body_overflow r.length} {a = o}
            (rw (← h, open_chunk, checked_add, a, b) refl))
      | inr b ↦ (
        ground arith,
        ok-injective {E = BodyError E} (rw (← h, open_chunk, checked_add, a, b) refl),
      )
    ]
  ]

  closed :
      (w : Write O) (c : Close O)
      → into_close {E = E} w ≡ ok c
      → (w.chunk_length ≤ w.chunk_offset)
        × (record {
          writer = w.writer;
          total_length = w.total_length;
          offset = w.offset + w.chunk_length;
        }
            ≡ c)
  unfolding into_close
  closed w c h = elim (Bool-cases (ltb w.chunk_offset w.chunk_length)) [
    | inl b ↦ absurd (
        err-ne-ok {E = BodyError E} {e = incomplete_body w.chunk_length w.chunk_offset} {a = c}
          (rw (← h, into_close, b) refl))
    | inr b ↦ (ground arith, ok-injective {E = BodyError E} (rw (← h, into_close, b) refl))
  ]

  finished :
      (r : Ready O) (f : Finish O)
      → finish {E = E} r ≡ ok f
      → (r.length ≤ r.offset) × (record { writer = r.writer; flushed = false } ≡ f)
  unfolding finish
  finished r f h = elim (Bool-cases (ltb r.offset r.length)) [
    | inl b ↦ absurd (
        err-ne-ok {E = BodyError E} {e = incomplete_body r.length r.offset} {a = f}
          (rw (← h, finish, b) refl))
    | inr b ↦ (ground arith, ok-injective {E = BodyError E} (rw (← h, finish, b) refl))
  ]

  silent : (w w' : O) → sink.sent w' ≡ sink.sent w → sink.sent w' ≡ sink.sent w ++ []
  silent w w' h = h ∙ sym (append-nil (sink.sent w))

  pub Step-Kept :
      (total n : ℕ) {s s' : Writer O} {bs : Bytes}
      → Step s bs s'
      → Counts total n s
      → Kept total n s bs s'
  unfolding into_write into_ready poll_finish poll_abort abort
  Step-Kept total n (opens k {r} {o} h) c =
      let (same, at, le) = c in
      let (fits, e) = opened k r o h in
      subst (λ x. Kept total n (in_ready r) [] (in_open x)) e
        (record {
          counts = (same, omega (arith, at), omega (arith, fits, at, same));
          sends = silent r.writer r.writer refl;
        })
  Step-Kept total n (writes buffer {w}) c = write-Kept total n buffer w c
  Step-Kept total n (starts {o} {w} h) c =
      let (same, at, le) = c in
      subst (λ x. Kept total n (in_open o) [] (in_write x)) (ok-injective h)
        (record {
          counts = (same, omega (arith, at), omega arith, omega (arith, at, le));
          sends = silent o.writer o.writer refl;
        })
  Step-Kept total n (closes {w} {c = x} h) c =
      let (same, at, within, le) = c in
      let (whole, e) = closed w x h in
      subst (λ y. Kept total n (in_write w) [] (in_close y)) e
        (record {
          counts = (same, omega (arith, at, within, whole), omega (arith, at, le, within, whole));
          sends = silent w.writer w.writer refl;
        })
  Step-Kept total n (returns {c = x} {r = r} h) c =
      let (same, at, le) = c in
      subst (λ y. Kept total n (in_close x) [] (in_ready y)) (ok-injective h)
        (record {
          counts = (same, omega (arith, at), omega (arith, le));
          sends = silent x.writer x.writer refl;
        })
  Step-Kept total n (finishes {r} {f} h) c =
      let (same, at, le) = c in
      let (whole, e) = finished r f h in
      subst (λ y. Kept total n (in_ready r) [] (in_finish y)) e
        (record {
          counts = omega (arith, same, at, le, whole);
          sends = silent r.writer r.writer refl;
        })
  Step-Kept total n (flushes {f}) c = record {
    counts = omega (arith, c);
    sends = silent f.writer (sink.poll_flush f.writer).1 (sink.flushes f.writer);
  }
  Step-Kept total n (aborts {r}) c = record {
    counts = omega (arith, c.2);
    sends = silent r.writer r.writer refl;
  }
  Step-Kept total n (abort_flushes {a}) c = record {
    counts = omega (arith, c);
    sends = silent a.writer (sink.poll_flush a.writer).1 (sink.flushes a.writer);
  }
