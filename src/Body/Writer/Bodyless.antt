-- ===== src/Body/Writer/Bodyless.antt =====
-- body/src/writer/bodyless.rs: the states of the writer of a message without a body, and the moves between
-- them.
use jrpxy.Prelude.{ℕ, Bool, false, not, Bytes, Result, ok, err, ltb, if◌then◌else◌, is_empty}
use jrpxy.Util.Async.{Poll, ready, AsyncWrite}
use jrpxy.Body.Error.{BodyError, body_overflow, unflushed_finish, unflushed_abort}
use jrpxy.Body.Writer.ContentLength.{flush_outcome}

pub record Ready (O : Type 0) : Type 0 where
  pub writer : O

pub record Open (O : Type 0) : Type 0 where
  pub writer : O

pub record Write (O : Type 0) : Type 0 where
  pub writer : O

pub record Close (O : Type 0) : Type 0 where
  pub writer : O

pub record Finish (O : Type 0) : Type 0 where
  pub writer : O
  pub flushed : Bool

pub record Abort (O : Type 0) : Type 0 where
  pub writer : O
  pub flushed : Bool

module _ {O : Type 0} where
  unfoldable pub new : O → Ready O
  new writer = record { writer = writer }

  unfoldable pub finish : Ready O → Finish O
  finish r = record { writer = r.writer; flushed = false }

  unfoldable pub abort : Ready O → Abort O
  abort r = record { writer = r.writer; flushed = false }

-- `open` of the source is `open_chunk`.
module _ {O E : Type 0} where
  unfoldable pub open_chunk : ℕ → Ready O → Result (Open O) (BodyError E)
  open_chunk length r =
      if ltb 0 length then err (body_overflow 0) else ok (record { writer = r.writer })

  unfoldable pub into_write : Open O → Result (Write O) (BodyError E)
  into_write o = ok (record { writer = o.writer })

  unfoldable pub poll_write : Bytes → Write O → Poll (Result ℕ (BodyError E)) × Write O
  poll_write buffer w =
      if is_empty buffer then (ready (ok 0), w) else (ready (err (body_overflow 0)), w)

  unfoldable pub write_all : Bytes → Write O → Result Unit (BodyError E) × Write O
  write_all buffer w = if not (is_empty buffer) then (err (body_overflow 0), w) else (ok tt, w)

  unfoldable pub into_close : Write O → Result (Close O) (BodyError E)
  into_close w = ok (record { writer = w.writer })

  unfoldable pub into_ready : Close O → Result (Ready O) (BodyError E)
  into_ready c = ok (record { writer = c.writer })

  unfoldable pub into_writer : Finish O → Result O (BodyError E)
  into_writer f = if not f.flushed then err unflushed_finish else ok f.writer

  unfoldable pub discard : Abort O → Result Unit (BodyError E)
  discard a = if not a.flushed then err unflushed_abort else ok tt

module _ {O E : Type 0} (sink : AsyncWrite O E) where
  unfoldable pub poll_finish : Finish O → Poll (Result Unit (BodyError E)) × Finish O
  poll_finish f =
      let (outcome, writer) = sink.poll_flush f.writer in
      let (result, flushed) = flush_outcome f.flushed outcome in
      (result, record { writer = writer; flushed = flushed })

  unfoldable pub poll_abort : Abort O → Poll (Result Unit (BodyError E)) × Abort O
  poll_abort a =
      let (outcome, writer) = sink.poll_flush a.writer in
      let (result, flushed) = flush_outcome a.flushed outcome in
      (result, record { writer = writer; flushed = flushed })
