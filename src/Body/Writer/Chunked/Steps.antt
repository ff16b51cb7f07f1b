-- ===== src/Body/Writer/Chunked/Steps.antt =====
-- body/src/writer/chunked.rs: every move of the writer keeps what the sink has been sent in step with the
-- chunks.
use jrpxy.Prelude.{
  ℕ, zero, suc, ◌≤◌, Bool, true, false, List, ◌∷◌, some, Bytes, codes, Result, ok, err, [], ◌++◌,
  ◌≡◌, refl, sym, ap, ◌∙◌, arith, length, drop, drop_all, take_all, append-nil, append_assoc, subst,
  if◌then◌else◌, length-append,
}
use jrpxy.Util.Async.{Poll, pending, ready, AsyncWrite, accepted}
use jrpxy.HttpMessage.Header.{Headers}
use jrpxy.Body.Error.{BodyError}
use jrpxy.Body.Writer.Bounded.{poll_write_bounded-Wrote}
use jrpxy.Body.Writer.Chunked.{
  Write, Close, Finish, Abort, chunk_header, footer_of, terminal_bytes, open_chunk,
  finish_with_trailers, abort, into_close, poll_write, poll_finish, poll_abort, abort_flush,
  abort_sent,
}
use jrpxy.Body.Writer.Chunked.Moves.{
  Writer, in_ready, in_open, in_write, in_close, in_finish, in_abort, encode, concat, encode-snoc,
  concat-snoc, Wire, Holds, Step, opens, sends_header, starts, writes, closes, sends_footer,
  returns, finishes, sends_terminal, aborts, sends_abort,
}
use jrpxy.Body.Writer.Chunked.Turns.{opened, footed, ended, started, closed_by, returned}

module _ {O E : Type 0} (sink : AsyncWrite O E) (trailers : Headers) where
  -- A move that takes nothing of the body and closes no chunk.
  quiet :
      (before out : Bytes) (s s' : Writer O) (h : Holds sink trailers before out s)
      → Wire sink trailers before h.closed h.current s'
      → Holds sink trailers before (out ++ []) s'
  quiet before out s s' h w = record {
    closed = h.closed;
    current = h.current;
    body = append-nil out ∙ h.body;
    wire = w;
  }

  -- The bytes that were left have gone.
  pub all_gone :
      (sent bs goal : Bytes) (n : ℕ) → length bs ≤ n → sent ++ drop n bs ≡ goal → sent ≡ goal
  all_gone sent bs goal n le e = sym (append-nil sent) ∙ ap (◌++◌ sent) (sym (drop_all n bs le)) ∙ e

  closes-Holds :
      (before out : Bytes) (w : Write O) (c : Close O)
      → into_close {E = E} w ≡ ok c
      → Holds sink trailers before out (in_write w)
      → Holds sink trailers before (out ++ []) (in_close c)
  closes-Holds before out w c h k =
      let (whole, e) = closed_by {E = E} w c h in
      let (sent, at, within) = k.wire in
      let full : w.chunk_length ≡ length k.current = omega (arith, whole, at, within) in
      subst (λ x. Holds sink trailers before (out ++ []) (in_close x)) e
        (record {
          closed = k.closed ++ k.current ∷ [];
          current = [];
          body =
              append-nil out
              ∙ k.body
              ∙ sym (concat-snoc k.closed k.current)
              ∙ sym (append-nil (concat (k.closed ++ k.current ∷ [])));
          wire = (
            ap (λ (x : Bytes). x ++ footer_of w.chunk_length) sent
                ∙ rw full (rw encode-snoc (simp append_assoc)),
            omega arith,
            refl,
          );
        })

  writes-Holds :
      (before out buffer : Bytes) (w : Write O)
      → Holds sink trailers before out (in_write w)
      → Holds sink trailers before
          (out ++ accepted (poll_write sink buffer w).0 buffer)
          (in_write (poll_write sink buffer w).1)
  unfolding poll_write
  writes-Holds before out buffer w k =
      let (sent, at, within) = k.wire in
      let wrote = poll_write_bounded-Wrote sink w.chunk_length w.chunk_offset buffer w.writer in
      let more = accepted (poll_write sink buffer w).0 buffer in
      record {
        closed = k.closed;
        current = k.current ++ more;
        body = ap (λ (x : Bytes). x ++ more) k.body ∙ append_assoc (concat k.closed) k.current more;
        wire = (
          wrote.sends ∙ ap (λ (x : Bytes). x ++ more) sent ∙ append_assoc _ k.current more,
          wrote.counts ∙ omega (arith, at, length-append k.current more),
          wrote.bounded within,
        );
      }

  left_same :
      (o o' : O) (n n' : ℕ) (bs bs' : Bytes)
      → sink.sent o ≡ sink.sent o'
      → n ≡ n'
      → bs ≡ bs'
      → sink.sent o ++ drop n bs ≡ sink.sent o' ++ drop n' bs'
  left_same o o' n n' bs bs' p q r = cc

  terminal-Wire :
      (before : Bytes) (done : List Bytes) (cur : Bytes) (f f' : Finish O)
      (p : Poll (Result Unit (BodyError E)))
      → poll_finish sink f ≡ some (p, f')
      → Wire sink trailers before done cur (in_finish f)
      → Wire sink trailers before done cur (in_finish f')
  terminal-Wire before done cur f f' p h (sent, le, none_open) =
      let (q, moved, (same_sent, same_bytes, same_count)) = ended sink f f' p h le in
      (
        left_same f'.writer q.2 f'.written q.1 f'.terminal f.terminal same_sent same_count
              same_bytes
            ∙ (moved.keeps ∙ sent),
        omega (arith, moved.within, same_count, ap length same_bytes),
        none_open,
      )

  abbrev x_if : Bool → Bytes
  x_if w = if w then codes "x" else []

  -- The byte `x` is sent when it is marked as written.
  abort_sent-Wire :
      (outcome : Poll (Result ℕ E)) (a : Abort O) (o' : O)
      → a.written ≡ false
      → sink.sent o' ≡ sink.sent a.writer ++ accepted outcome (codes "x")
      → sink.sent (abort_sent sink outcome (record a { writer = o' })).1.writer
        ≡ sink.sent a.writer ++ x_if (abort_sent sink outcome (record a { writer = o' })).1.written
  unfolding abort_sent abort_flush
  abort_sent-Wire pending a o' w e = rw w e
  abort_sent-Wire (ready (err x)) a o' w e = rw w e
  abort_sent-Wire (ready (ok zero)) a o' w e = rw w e
  abort_sent-Wire (ready (ok (suc n))) a o' w e =
      sink.flushes o'
      ∙ (e ∙ ap (◌++◌ (sink.sent a.writer)) (take_all (suc n) (codes "x") (omega arith)))

  abort_by_parts :
      (before : Bytes) (done : List Bytes) (cur : Bytes) (writer : O) (written flushed : Bool)
      → let a : Abort O = record { writer = writer; written = written; flushed = flushed } in
        Wire sink trailers before done cur (in_abort a)
        → Wire sink trailers before done cur (in_abort (poll_abort sink a).1)
  unfolding poll_abort abort_flush
  abort_by_parts before done cur writer true flushed (sent, none_open) =
      (sink.flushes writer ∙ sent, none_open)
  abort_by_parts before done cur writer false flushed (sent, none_open) =
      let a : Abort O = record { writer = writer; written = false; flushed = flushed } in
      let polled = sink.poll_write writer (codes "x") in
      let after : Abort O = (abort_sent sink polled.0 (record a { writer = polled.1 })).1 in
      (
        abort_sent-Wire polled.0 a polled.1 refl (sink.sends writer (codes "x"))
            ∙ ap (λ (x : Bytes). x ++ x_if after.written)
                (sent ∙ append-nil (before ++ encode done)),
        none_open,
      )

  poll_abort-Wire :
      (before : Bytes) (done : List Bytes) (cur : Bytes) (a : Abort O)
      → Wire sink trailers before done cur (in_abort a)
      → Wire sink trailers before done cur (in_abort (poll_abort sink a).1)
  poll_abort-Wire before done cur a h =
      abort_by_parts before done cur a.writer a.written a.flushed h

  pub Step-Holds :
      (before out : Bytes) {s s' : Writer O} {bs : Bytes}
      → Step sink trailers s bs s'
      → Holds sink trailers before out s
      → Holds sink trailers before (out ++ bs) s'
  unfolding open_chunk finish_with_trailers abort
  Step-Holds before out (opens n {r}) h =
      let (sent, none_open) = h.wire in
      quiet before out (in_ready r) (in_open (open_chunk n r)) h
        (ap (λ (x : Bytes). x ++ chunk_header n) sent, omega arith, none_open)
  Step-Holds before out (sends_header {o} {o'} {p} e) h =
      let (sent, le, none_open) = h.wire in
      let (q, moved, same) = opened sink o o' p e le in
      subst (λ x. Holds sink trailers before (out ++ []) (in_open x)) same
        (quiet before out (in_open o) (in_open (record o { writer = q.2; written = q.1 })) h
          (moved.keeps ∙ sent, moved.within, none_open))
  Step-Holds before out (starts {o} {w} e) h =
      let (sent, le, none_open) = h.wire in
      let (all_sent, same) = started {E = E} o w e in
      subst (λ x. Holds sink trailers before (out ++ []) (in_write x)) same
        (quiet before out (in_open o) _ h (
          all_gone (sink.sent o.writer) o.header _ o.written all_sent sent
              ∙ sym (append-nil _)
              ∙ ap (◌++◌ ((before ++ encode h.closed) ++ chunk_header o.chunk_length))
                  (sym none_open),
          rw none_open refl,
          omega arith,
        ))
  Step-Holds before out (writes buffer {w}) h = writes-Holds before out buffer w h
  Step-Holds before out (closes {w} {c} e) h = closes-Holds before out w c e h
  Step-Holds before out (sends_footer {c} {c'} {p} e) h =
      let (sent, le, none_open) = h.wire in
      let (q, moved, same) = footed sink c c' p e le in
      subst (λ x. Holds sink trailers before (out ++ []) (in_close x)) same
        (quiet before out (in_close c) (in_close (record c { writer = q.2; footer_written = q.1 }))
          h (moved.keeps ∙ sent, moved.within, none_open))
  Step-Holds before out (returns {c} {r} e) h =
      let (sent, le, none_open) = h.wire in
      let (all_sent, same) = returned {E = E} c r e in
      subst (λ x. Holds sink trailers before (out ++ []) (in_ready x)) same
        (quiet before out (in_close c) (in_ready (record { writer = c.writer })) h
          (all_gone (sink.sent c.writer) c.footer _ c.footer_written all_sent sent, none_open))
  Step-Holds before out (finishes {r}) h =
      let (sent, none_open) = h.wire in
      quiet before out (in_ready r) (in_finish (finish_with_trailers trailers r)) h
        (ap (λ (x : Bytes). x ++ terminal_bytes trailers) sent, omega arith, none_open)
  Step-Holds before out (sends_terminal {f} {f'} {p} e) h =
      quiet before out (in_finish f) (in_finish f') h
        (terminal-Wire before h.closed h.current f f' p e h.wire)
  Step-Holds before out (aborts {r}) h =
      let (sent, none_open) = h.wire in
      quiet before out (in_ready r) (in_abort (abort r)) h (sent ∙ sym (append-nil _), none_open)
  Step-Holds before out (sends_abort {a}) h =
      quiet before out (in_abort a) (in_abort (poll_abort sink a).1) h
        (poll_abort-Wire before h.closed h.current a h.wire)
