-- ===== src/Body/Reader.antt =====
-- body/src/reader.rs. What a reader needs from `ParseSlots` is room for parsed headers, reused and
-- never read before it is written, so the readers of plain bodies have no field for it.
pub mod Ensures
pub mod ContentLength
pub mod Eof
pub mod Chunked
pub mod Bodyless
use jrpxy.Prelude.{ℕ, Option, Result, ok, err, map_err}
use jrpxy.Util.Async.{Poll, pending, ready, AsyncRead}
use jrpxy.Util.IoBuffer.{ReaderBufferError, BytesReader, ensure, extend}
use jrpxy.Body.Error.{BodyError, body_error}

abbrev pub drain_size : ℕ
drain_size = 4096

abbrev pub io_fill_len : ℕ
io_fill_len = 4096

-- The outcome of a poll of a reader with state `S`, and the state it leaves; `none` is a panic.
abbrev pub Polled : Type 0 → Type 0 → Type 0 → Type 0
Polled S A E = Option (Poll (Result A (BodyError E)) × S)

pub with_body_error :
    {E : Type 0} → Poll (Result Unit (ReaderBufferError E)) → Poll (Result Unit (BodyError E))
with_body_error pending = pending
with_body_error (ready r) = ready (map_err body_error r)

module _ {I E : Type 0} where
  unfoldable pub poll_ensure :
      AsyncRead I E → BytesReader I → Poll (Result Unit (BodyError E)) × BytesReader I
  unfolding with_body_error
  poll_ensure source r =
      let (outcome, r') = ensure source io_fill_len r in (with_body_error outcome, r')

  unfoldable pub poll_extend :
      AsyncRead I E → BytesReader I → Poll (Result Unit (BodyError E)) × BytesReader I
  unfolding with_body_error
  poll_extend source r =
      let (outcome, r') = extend source io_fill_len r in (with_body_error outcome, r')
