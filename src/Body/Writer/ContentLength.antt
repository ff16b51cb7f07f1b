-- ===== src/Body/Writer/ContentLength.antt =====
-- body/src/writer/content_length.rs: the states of the writer and the moves between them. Lengths
-- are `u64`, which a sum goes beyond only behind a check.
pub mod Moves
pub mod Sends
use jrpxy.Prelude.{
  ℕ, ◌+◌, Bool, true, false, not, Option, none, some, Bytes, Result, ok, err, ltb, if◌then◌else◌,
}
use jrpxy.Util.Async.{Poll, pending, ready, AsyncWrite}
use jrpxy.Body.Error.{
  BodyError, body_overflow, incomplete_body, unflushed_finish, unflushed_abort, body_write_error,
}
use jrpxy.Body.Writer.{checked_add, poll_write_bounded}

pub record Ready (O : Type 0) : Type 0 where
  pub writer : O
  pub length : ℕ
  pub offset : ℕ

pub record Open (O : Type 0) : Type 0 where
  pub writer : O
  pub total_length : ℕ
  pub offset : ℕ
  pub chunk_length : ℕ

pub record Write (O : Type 0) : Type 0 where
  pub writer : O
  pub total_length : ℕ
  pub offset : ℕ
  pub chunk_length : ℕ
  pub chunk_offset : ℕ

pub record Close (O : Type 0) : Type 0 where
  pub writer : O
  pub total_length : ℕ
  pub offset : ℕ

pub record Finish (O : Type 0) : Type 0 where
  pub writer : O
  pub flushed : Bool

pub record Abort (O : Type 0) : Type 0 where
  pub writer : O
  pub flushed : Bool

-- The outcome of a flush, and whether it is done.
unfoldable pub flush_outcome :
    {E : Type 0} → Bool → Poll (Result Unit E) → Poll (Result Unit (BodyError E)) × Bool
flush_outcome flushed pending = (pending, flushed)
flush_outcome flushed (ready (err e)) = (ready (err (body_write_error e)), flushed)
flush_outcome flushed (ready (ok _)) = (ready (ok tt), true)

-- `open` of the source is `open_chunk`.
module _ {O E : Type 0} where
  unfoldable pub open_chunk : ℕ → Ready O → Result (Open O) (BodyError E)
  open_chunk length r = elim (checked_add r.offset length) [
    | none ↦ err (body_overflow r.length)
    | some target ↦
        if ltb r.length target
        then err (body_overflow r.length)
        else ok (record {
          writer = r.writer;
          total_length = r.length;
          offset = r.offset;
          chunk_length = length;
        })
  ]

  unfoldable pub finish : Ready O → Result (Finish O) (BodyError E)
  finish r =
      if ltb r.offset r.length
      then err (incomplete_body r.length r.offset)
      else ok (record { writer = r.writer; flushed = false })

  -- `Open` has nothing to send, so `into_write` always succeeds.
  unfoldable pub into_write : Open O → Result (Write O) (BodyError E)
  into_write o = ok (record {
    writer = o.writer;
    total_length = o.total_length;
    offset = o.offset;
    chunk_length = o.chunk_length;
    chunk_offset = 0;
  })

  unfoldable pub into_close : Write O → Result (Close O) (BodyError E)
  into_close w =
      if ltb w.chunk_offset w.chunk_length
      then err (incomplete_body w.chunk_length w.chunk_offset)
      else ok (record {
        writer = w.writer;
        total_length = w.total_length;
        offset = w.offset + w.chunk_length;
      })

  unfoldable pub into_ready : Close O → Result (Ready O) (BodyError E)
  into_ready c = ok (record { writer = c.writer; length = c.total_length; offset = c.offset })

  unfoldable pub into_writer : Finish O → Result O (BodyError E)
  into_writer f = if not f.flushed then err unflushed_finish else ok f.writer

  unfoldable pub discard : Abort O → Result Unit (BodyError E)
  discard a = if not a.flushed then err unflushed_abort else ok tt

  unfoldable pub poll_write :
      AsyncWrite O E → Bytes → Write O → Poll (Result ℕ (BodyError E)) × Write O
  poll_write sink buffer w =
      let (outcome, chunk_offset, writer) =
        poll_write_bounded sink w.chunk_length w.chunk_offset buffer w.writer in
      (outcome, record w { writer = writer; chunk_offset = chunk_offset })

  unfoldable pub poll_finish :
      AsyncWrite O E → Finish O → Poll (Result Unit (BodyError E)) × Finish O
  poll_finish sink f =
      let (outcome, writer) = AsyncWrite.poll_flush sink f.writer in
      let (result, flushed) = flush_outcome f.flushed outcome in
      (result, record { writer = writer; flushed = flushed })

  unfoldable pub poll_abort : AsyncWrite O E → Abort O → Poll (Result Unit (BodyError E)) × Abort O
  poll_abort sink a =
      let (outcome, writer) = AsyncWrite.poll_flush sink a.writer in
      let (result, flushed) = flush_outcome a.flushed outcome in
      (result, record { writer = writer; flushed = flushed })

module _ {O : Type 0} where
  unfoldable pub new : O → ℕ → Ready O
  new writer length = record { writer = writer; length = length; offset = 0 }

  unfoldable pub abort : Ready O → Abort O
  abort r = record { writer = r.writer; flushed = false }
