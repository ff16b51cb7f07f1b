-- ===== src/Body/Writer.antt =====
-- body/src/writer.rs
pub mod Bounded
pub mod ContentLength
pub mod Loop
pub mod Chunked
pub mod Eof
pub mod Bodyless
pub mod All
use jrpxy.Prelude.{
  ℕ, ◌+◌, Option, none, some, Bytes, Result, ok, err, leb, ltb, if◌then◌else◌, length, u64_max,
}
use jrpxy.Util.Async.{Poll, pending, ready, AsyncWrite}
use jrpxy.Body.Error.{BodyError, body_overflow, body_write_error}

-- `u64::checked_add`
unfoldable pub checked_add : ℕ → ℕ → Option ℕ
checked_add a b = if leb (a + b) u64_max then some (a + b) else none

-- The outcome of the write, and the new offset.
unfoldable pub advance : {E : Type 0} → ℕ → Poll (Result ℕ E) → Poll (Result ℕ (BodyError E)) × ℕ
advance offset pending = (pending, offset)
advance offset (ready (err e)) = (ready (err (body_write_error e)), offset)
advance offset (ready (ok len)) = (ready (ok len), offset + len)

module _ {O E : Type 0} where
  -- What follows the two checks.
  unfoldable pub write_some : AsyncWrite O E → ℕ → Bytes → O → Poll (Result ℕ (BodyError E)) × ℕ × O
  unfolding advance
  write_some sink offset buffer writer =
      let (outcome, writer') = AsyncWrite.poll_write sink writer buffer in
      let (result, offset') = advance offset outcome in (result, offset', writer')

  unfoldable pub poll_write_bounded :
      AsyncWrite O E → (max_length offset : ℕ) → Bytes → O → Poll (Result ℕ (BodyError E)) × ℕ × O
  unfolding checked_add write_some
  poll_write_bounded sink max_length offset buffer writer =
      elim (checked_add offset (length buffer)) [
        | none ↦ (ready (err (body_overflow max_length)), offset, writer)
        | some target_next_offset ↦
            if ltb max_length target_next_offset
            then (ready (err (body_overflow max_length)), offset, writer)
            else write_some sink offset buffer writer
      ]
