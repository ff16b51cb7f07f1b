-- ===== src/Body/Writer/All.antt =====
-- body/src/writer/content_length.rs, chunked.rs and eof.rs: the loop of `write_all`, which is the same in the three.
-- A round that goes on has written at least one byte, so fuel beyond the length of the buffer is enough. What is left
-- of the buffer is kept while a poll is pending.
pub mod Writes
use jrpxy.Prelude.{
  ℕ, zero, suc, ◌<◌, List, [], ◌∷◌, ◌++◌, Option, none, some, Bytes, Result, ok, err, ◌≡◌, refl,
  sym, ap, ◌∙◌, arith, length, take, drop, length-drop, take-append-drop, append_assoc, append-nil,
}
use jrpxy.Util.Async.{Poll, pending, ready, AsyncWrite, accepted}
use jrpxy.Body.Error.{BodyError, body_write_error}
use jrpxy.Body.Writer.Bounded.{poll_write_bounded-Wrote}
use jrpxy.Body.Writer.{poll_write_bounded}
use jrpxy.Body.Writer.ContentLength
use jrpxy.Body.Writer.Chunked
use jrpxy.Body.Writer.Eof

-- The outcome, what is left of the buffer, and the writer.
abbrev pub Writing : Type 0 → Type 0 → Type 0
Writing S E = Poll (Result Unit (BodyError E)) × Bytes × S

module _ {S E : Type 0} where
  -- What a round makes of a poll of the writer; `k` is the next round.
  unfoldable pub take_written :
      E
      → Bytes
      → (Bytes → S → Option (Writing S E))
      → Poll (Result ℕ (BodyError E))
      → S
      → Option (Writing S E)
  take_written write_zero buffer k pending s = some (pending, buffer, s)
  take_written write_zero buffer k (ready (err e)) s = some (ready (err e), buffer, s)
  take_written write_zero buffer k (ready (ok zero)) s =
      some (ready (err (body_write_error write_zero)), buffer, s)
  take_written write_zero buffer k (ready (ok (suc w))) s = k (drop (suc w) buffer) s

  unfoldable pub poll_write_all :
      E → (Bytes → S → Poll (Result ℕ (BodyError E)) × S) → ℕ → Bytes → S → Option (Writing S E)
  unfolding take_written
  poll_write_all write_zero poll_write zero buffer s = none
  poll_write_all write_zero poll_write (suc fuel) [] s = some (ready (ok tt), [], s)
  poll_write_all write_zero poll_write (suc fuel) (b ∷ bs) s =
      let (outcome, s') = poll_write (b ∷ bs) s in
      take_written write_zero (b ∷ bs) (poll_write_all write_zero poll_write fuel) outcome s'

module _ {O E : Type 0} (sink : AsyncWrite O E) where
  unfoldable pub write_all_of_length :
      ℕ → Bytes → ContentLength.Write O → Option (Writing (ContentLength.Write O) E)
  write_all_of_length fuel buffer w =
      poll_write_all sink.write_zero (ContentLength.poll_write sink) fuel buffer w

  unfoldable pub write_all_of_chunk :
      ℕ → Bytes → Chunked.Write O → Option (Writing (Chunked.Write O) E)
  write_all_of_chunk fuel buffer w =
      poll_write_all sink.write_zero (Chunked.poll_write sink) fuel buffer w

  unfoldable pub write_all_to_eof : ℕ → Bytes → Eof.Write O → Option (Writing (Eof.Write O) E)
  write_all_to_eof fuel buffer w =
      poll_write_all sink.write_zero (Eof.poll_write sink) fuel buffer w
