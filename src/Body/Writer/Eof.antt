-- ===== src/Body/Writer/Eof.antt =====
-- body/src/writer/eof.rs: the states of the writer of a body that ends with the connection, and the moves
-- between them.
use jrpxy.Prelude.{ℕ, Bool, false, not, Bytes, Result, ok, err, ltb, if◌then◌else◌}
use jrpxy.Util.Async.{Poll, AsyncWrite}
use jrpxy.Body.Error.{BodyError, incomplete_body, unflushed_finish, unflushed_abort}
use jrpxy.Body.Writer.{poll_write_bounded}
use jrpxy.Body.Writer.ContentLength.{flush_outcome}

pub record Ready (O : Type 0) : Type 0 where
  pub writer : O

pub record Open (O : Type 0) : Type 0 where
  pub writer : O
  pub chunk_length : ℕ

pub record Write (O : Type 0) : Type 0 where
  pub writer : O
  pub chunk_length : ℕ
  pub chunk_offset : ℕ

pub record Close (O : Type 0) : Type 0 where
  pub writer : O

pub record Finish (O : Type 0) : Type 0 where
  pub writer : O
  pub flushed : Bool

pub record Abort (O : Type 0) : Type 0 where
  pub writer : O
  pub flushed : Bool

-- `open` of the source is `open_chunk`.
module _ {O : Type 0} where
  unfoldable pub new : O → Ready O
  new writer = record { writer = writer }

  unfoldable pub open_chunk : ℕ → Ready O → Open O
  open_chunk length r = record { writer = r.writer; chunk_length = length }

  unfoldable pub finish : Ready O → Finish O
  finish r = record { writer = r.writer; flushed = false }

  unfoldable pub abort : Ready O → Abort O
  abort r = record { writer = r.writer; flushed = false }

module _ {O E : Type 0} where
  unfoldable pub into_write : Open O → Result (Write O) (BodyError E)
  into_write o = ok (record { writer = o.writer; chunk_length = o.chunk_length; chunk_offset = 0 })

  unfoldable pub into_close : Write O → Result (Close O) (BodyError E)
  into_close w =
      if ltb w.chunk_offset w.chunk_length
      then err (incomplete_body w.chunk_length w.chunk_offset)
      else ok (record { writer = w.writer })

  unfoldable pub into_ready : Close O → Result (Ready O) (BodyError E)
  into_ready c = ok (record { writer = c.writer })

  -- The writer is dropped, which ends the connection.
  unfoldable pub discard_finish : Finish O → Result Unit (BodyError E)
  discard_finish f = if not f.flushed then err unflushed_finish else ok tt

  unfoldable pub discard : Abort O → Result Unit (BodyError E)
  discard a = if not a.flushed then err unflushed_abort else ok tt

module _ {O E : Type 0} (sink : AsyncWrite O E) where
  unfoldable pub poll_write : Bytes → Write O → Poll (Result ℕ (BodyError E)) × Write O
  poll_write buffer w =
      let (outcome, chunk_offset, writer) =
        poll_write_bounded sink w.chunk_length w.chunk_offset buffer w.writer in
      (outcome, record w { writer = writer; chunk_offset = chunk_offset })

  unfoldable pub poll_finish : Finish O → Poll (Result Unit (BodyError E)) × Finish O
  poll_finish f =
      let (outcome, writer) = sink.poll_flush f.writer in
      let (result, flushed) = flush_outcome f.flushed outcome in
      (result, record { writer = writer; flushed = flushed })

  unfoldable pub poll_abort : Abort O → Poll (Result Unit (BodyError E)) × Abort O
  poll_abort a =
      let (outcome, writer) = sink.poll_flush a.writer in
      let (result, flushed) = flush_outcome a.flushed outcome in
      (result, record { writer = writer; flushed = flushed })
