-- ===== src/Body/Writer/Chunked/Turns.antt =====
-- body/src/writer/chunked.rs: the outcomes of the moves, taken apart.
use jrpxy.Prelude.{
  ◌≤◌, ltb, some, Result, ok, err, ◌≡◌, refl, arith, Bool-cases, inl, inr, length, ok-injective,
  err-ne-ok, subst,
}
use jrpxy.Util.Async.{Poll, pending, ready, AsyncWrite}
use jrpxy.Body.Error.{BodyError, incomplete_body, incomplete_chunk_header, incomplete_chunk_footer}
use jrpxy.Body.Writer.Loop.{Progress, poll_send-Sent, Sent}
use jrpxy.Body.Writer.Chunked.{
  Ready, Open, Write, Close, Finish, footer_of, into_write, into_close, into_ready, poll_open,
  poll_close, poll_finish, finish_flush, finish_sent,
}

module _ {O E : Type 0} where
  pub started :
      (o : Open O) (w : Write O)
      → into_write {E = E} o ≡ ok w
      → (length o.header ≤ o.written)
        × (record { writer = o.writer; chunk_length = o.chunk_length; chunk_offset = 0 } ≡ w)
  unfolding into_write
  started o w h = elim (Bool-cases (ltb o.written (length o.header))) [
    | inl b ↦ absurd (
        err-ne-ok {E = BodyError E} {e = incomplete_chunk_header (length o.header) o.written}
          {a = w} (rw (← h, into_write, b) refl))
    | inr b ↦ (ground arith, ok-injective {E = BodyError E} (rw (← h, into_write, b) refl))
  ]

  pub closed_by :
      (w : Write O) (c : Close O)
      → into_close {E = E} w ≡ ok c
      → (w.chunk_length ≤ w.chunk_offset)
        × (record { writer = w.writer; footer = footer_of w.chunk_length; footer_written = 0 } ≡ c)
  unfolding into_close
  closed_by w c h = elim (Bool-cases (ltb w.chunk_offset w.chunk_length)) [
    | inl b ↦ absurd (
        err-ne-ok {E = BodyError E} {e = incomplete_body w.chunk_length w.chunk_offset} {a = c}
          (rw (← h, into_close, b) refl))
    | inr b ↦ (ground arith, ok-injective {E = BodyError E} (rw (← h, into_close, b) refl))
  ]

  pub returned :
      (c : Close O) (r : Ready O)
      → into_ready {E = E} c ≡ ok r
      → (length c.footer ≤ c.footer_written) × (record { writer = c.writer } ≡ r)
  unfolding into_ready
  returned c r h = elim (Bool-cases (ltb c.footer_written (length c.footer))) [
    | inl b ↦ absurd (
        err-ne-ok {E = BodyError E} {e = incomplete_chunk_footer (length c.footer) c.footer_written}
          {a = r} (rw (← h, into_ready, b) refl))
    | inr b ↦ (ground arith, ok-injective {E = BodyError E} (rw (← h, into_ready, b) refl))
  ]

module _ {O E : Type 0} (sink : AsyncWrite O E) where
  pub opened :
      (o o' : Open O) (p : Poll (Result Unit (BodyError E)))
      → poll_open sink o ≡ some (p, o')
      → o.written ≤ length o.header
      → (q : Progress O E) × Sent sink o.header o.written o.writer q
        × (record o { writer = q.2; written = q.1 } ≡ o')
  unfolding poll_open
  opened o o' p h le =
      let (q, e, sent) = poll_send-Sent sink o.header o.written o.writer le in
      let after : Poll (Result Unit (BodyError E)) × Open O =
        (q.0, record o { writer = q.2; written = q.1 }) in
      let before : Poll (Result Unit (BodyError E)) × Open O = (p, o') in
      let same : some after ≡ some before = rw (← h, poll_open, e) refl in (q, sent, cc same)

  pub footed :
      (c c' : Close O) (p : Poll (Result Unit (BodyError E)))
      → poll_close sink c ≡ some (p, c')
      → c.footer_written ≤ length c.footer
      → (q : Progress O E) × Sent sink c.footer c.footer_written c.writer q
        × (record c { writer = q.2; footer_written = q.1 } ≡ c')
  unfolding poll_close
  footed c c' p h le =
      let (q, e, sent) = poll_send-Sent sink c.footer c.footer_written c.writer le in
      let after : Poll (Result Unit (BodyError E)) × Close O =
        (q.0, record c { writer = q.2; footer_written = q.1 }) in
      let before : Poll (Result Unit (BodyError E)) × Close O = (p, c') in
      let same : some after ≡ some before = rw (← h, poll_close, e) refl in (q, sent, cc same)

  -- The flush leaves what has been sent and what is left alone.
  abbrev pub Flushes : Finish O → Finish O → Type 0
  Flushes f f' =
      (sink.sent f'.writer ≡ sink.sent f.writer)
      × (f'.terminal ≡ f.terminal)
      × (f'.written ≡ f.written)

  finish_sent-Flushes :
      (outcome : Poll (Result Unit (BodyError E))) (f : Finish O)
      → Flushes f (finish_sent sink outcome f).1
  unfolding finish_sent finish_flush
  finish_sent-Flushes pending f = (refl, refl, refl)
  finish_sent-Flushes (ready (err e)) f = (refl, refl, refl)
  finish_sent-Flushes (ready (ok _)) f = (sink.flushes f.writer, refl, refl)

  pub ended :
      (f f' : Finish O) (p : Poll (Result Unit (BodyError E)))
      → poll_finish sink f ≡ some (p, f')
      → f.written ≤ length f.terminal
      → (q : Progress O E) × Sent sink f.terminal f.written f.writer q
        × Flushes (record f { writer = q.2; written = q.1 }) f'
  unfolding poll_finish
  ended f f' p h le =
      let (q, e, sent) = poll_send-Sent sink f.terminal f.written f.writer le in
      let g : Finish O = record f { writer = q.2; written = q.1 } in
      let last_poll : Poll (Result Unit (BodyError E)) × Finish O = (p, f') in
      let same : some (finish_sent sink q.0 g) ≡ some last_poll = rw (← h, poll_finish, e) refl in
      let last : (finish_sent sink q.0 g).1 ≡ f' = cc same in
      (q, sent, subst (Flushes g) last (finish_sent-Flushes q.0 g))
