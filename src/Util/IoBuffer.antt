-- ===== src/Util/IoBuffer.antt =====
-- util/src/io_buffer.rs: the buffer in front of a source of bytes. A future is the function that
-- its `poll` runs, from the state to the outcome of the poll and the new state. An operation that
-- panics, in a build with debug assertions, has `none` for its result. `usize` has 64 bits.
pub mod Fills
pub mod Cuts
pub mod Flows
use jrpxy.Prelude.{
  ℕ, zero, suc, ◌+◌, ◌-◌, ◌^◌, Bool, true, false, List, [], ◌∷◌, ◌++◌, Option, none, some, Bytes,
  ltb, leb, ◌==◌, min, if◌then◌else◌, length, take, drop, replicate, Result, ok, err,
}
use jrpxy.Util.Async.{Poll, pending, ready, AsyncRead}

pub data ReaderBufferError (E : Type 0) : Type 0 where
  io_error : E → ReaderBufferError E
  unexpected_eof : ReaderBufferError E

pub record ReaderBuffer : Type 0 where
  pub buffer : Bytes
  pub position : ℕ

abbrev pub usize_max : ℕ
usize_max = 2 ^ 64 - 1

abbrev saturating_add : ℕ → ℕ → ℕ
saturating_add a b = min (a + b) usize_max

-- `ReaderBuffer::default`
abbrev pub empty : ReaderBuffer
empty = record { buffer = []; position = 0 }

abbrev pub buffered : ReaderBuffer → Bytes
buffered b = take b.position b.buffer

-- The `assert!` and the subtraction both want `len <= position`.
split : ReaderBuffer → ℕ → Option (Bytes × ReaderBuffer)
split b len =
    if leb len b.position
    then some
        (take len b.buffer, record b { buffer = drop len b.buffer; position = b.position - len })
    else none

-- The room that the caller may write to is what lies from `position` up to `needed_len`.
pub reserve : ReaderBuffer → ℕ → ReaderBuffer × ℕ
reserve b extra =
    let needed_len = saturating_add b.position extra in
    (
      if ltb (length b.buffer) needed_len
          then record b { buffer = b.buffer ++ replicate (needed_len - length b.buffer) 0 }
          else b,
      needed_len - b.position,
    )

advance : ReaderBuffer → ℕ → ReaderBuffer
advance b advance_by = record b { position = saturating_add b.position advance_by }

-- What a read puts into the reserved room.
fill : ReaderBuffer → Bytes → ReaderBuffer
fill b bs = record b {
  buffer = take b.position b.buffer ++ (bs ++ drop (b.position + length bs) b.buffer);
}

take_u8 : Bytes → ℕ → Option (ℕ × ReaderBuffer)
take_u8 [] position = none
take_u8 (x ∷ xs) zero = none
take_u8 (x ∷ xs) (suc p) = some (x, record { buffer = xs; position = p })

pub record BytesReader (I : Type 0) : Type 0 where
  pub io : I
  pub buffer : ReaderBuffer

module _ {I : Type 0} where
  unfoldable pub new : I → BytesReader I
  new io = record { io = io; buffer = empty }

  abbrev pub as_bytes : BytesReader I → Bytes
  as_bytes r = buffered r.buffer

  abbrev pub len : BytesReader I → ℕ
  len r = r.buffer.position

  unfoldable pub split_to : BytesReader I → ℕ → Option (Bytes × BytesReader I)
  unfolding split
  split_to r n = elim (split r.buffer n) [
    | none ↦ none
    | some (bs, b) ↦ some (bs, record r { buffer = b })
  ]

  unfoldable pub get_u8 : BytesReader I → Option (ℕ × BytesReader I)
  unfolding take_u8
  get_u8 r = elim (take_u8 r.buffer.buffer r.buffer.position) [
    | none ↦ none
    | some (x, b) ↦ some (x, record r { buffer = b })
  ]

  -- `resize` down to the valid data.
  unfoldable pub into_parts : BytesReader I → I × Bytes
  into_parts r = (r.io, take r.buffer.position r.buffer.buffer)

module _ {I E : Type 0} (source : AsyncRead I E) where
  open source use {poll_read}

  -- The end of `do_fill`, behind the poll of the source.
  filled : ReaderBuffer → Poll (Result Bytes E) → Poll (Result ℕ E) × ReaderBuffer
  unfolding advance fill
  filled b pending = (pending, b)
  filled b (ready (err e)) = (ready (err e), b)
  filled b (ready (ok bs)) = (ready (ok (length bs)), advance (fill b bs) (length bs))

  unfoldable pub do_fill : ℕ → BytesReader I → Poll (Result ℕ E) × BytesReader I
  unfolding filled reserve
  do_fill n r =
      let (reserved, room) = reserve r.buffer n in
      let (outcome, io') = poll_read r.io room in
      let (result, b) = filled reserved outcome in (result, record r { io = io'; buffer = b })

  -- The `match filled` of `Ensure` and `Extend`.
  at_least_one : Result ℕ E → Result Unit (ReaderBufferError E)
  at_least_one (err e) = err (io_error e)
  at_least_one (ok zero) = err unexpected_eof
  at_least_one (ok (suc n)) = ok tt

  unfoldable pub extend :
      ℕ → BytesReader I → Poll (Result Unit (ReaderBufferError E)) × BytesReader I
  unfolding do_fill at_least_one
  extend n r =
      let (outcome, r') = do_fill n r in
      (elim outcome [ pending ↦ pending | ready result ↦ ready (at_least_one result) ], r')

  unfoldable pub ensure :
      ℕ → BytesReader I → Poll (Result Unit (ReaderBufferError E)) × BytesReader I
  unfolding extend
  ensure n r = if len r == 0 then extend n r else (ready (ok tt), r)
