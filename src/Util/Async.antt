-- ===== src/Util/Async.antt =====
-- `Poll` of Rust's core library, and the trait `AsyncRead` of tokio as an interface: what polls a
-- source is a parameter of the models, with the documented behaviour of `poll_read` as its laws.
use jrpxy.Prelude.{ℕ, ◌≤◌, ◌≡◌, [], ◌++◌, Bytes, length, take, Result, ok}

pub data Poll {ℓ} (A : Type ℓ) : Type ℓ where
  pending : Poll A
  ready : A → Poll A

-- What a poll has added to the buffer it was given.
abbrev pub delivered : {E : Type 0} → Poll (Result Bytes E) → Bytes
delivered (ready (ok bs)) = bs
delivered _ = []

-- A source `I` whose errors are `E`. The number given to `poll_read` is the room in the buffer.
-- `received` is all that the source has handed out so far.
pub record AsyncRead (I E : Type 0) : Type 0 where
  pub poll_read : I → ℕ → Poll (Result Bytes E) × I
  pub received : I → Bytes
  pub fits : (i : I) (room : ℕ) → length (delivered (poll_read i room).0) ≤ room
  pub receives :
      (i : I) (room : ℕ)
      → received (poll_read i room).1 ≡ received i ++ delivered (poll_read i room).0

-- What a poll for writing has taken from the front of the buffer.
abbrev pub accepted : {E : Type 0} → Poll (Result ℕ E) → Bytes → Bytes
accepted (ready (ok n)) buffer = take n buffer
accepted _ buffer = []

-- tokio's `AsyncWrite`: a sink `O` whose errors are `E`. `sent` is all that the sink has taken so far, and
-- `write_zero` is the error of kind `ErrorKind::WriteZero`.
pub record AsyncWrite (O E : Type 0) : Type 0 where
  pub poll_write : O → Bytes → Poll (Result ℕ E) × O
  pub poll_flush : O → Poll (Result Unit E) × O
  pub write_zero : E
  pub sent : O → Bytes
  pub takes :
      (o : O) (buffer : Bytes) (n : ℕ) → (poll_write o buffer).0 ≡ ready (ok n) → n ≤ length buffer
  pub sends :
      (o : O) (buffer : Bytes)
      → sent (poll_write o buffer).1 ≡ sent o ++ accepted (poll_write o buffer).0 buffer
  pub flushes : (o : O) → sent (poll_flush o).1 ≡ sent o

-- tokio's `AsyncWriteExt` over such a sink. `write_all` either takes the whole buffer or fails, when the sink
-- may have taken a part of it; `flush` takes nothing.
pub record AsyncWriteExt (O E : Type 0) : Type 0 where
  pub base : AsyncWrite O E
  pub write_all : Bytes → O → Result Unit E × O
  pub flush : O → Result Unit E × O
  pub sends_all :
      (buffer : Bytes) (o : O)
      → (write_all buffer o).0 ≡ ok tt
      → AsyncWrite.sent base (write_all buffer o).1 ≡ AsyncWrite.sent base o ++ buffer
  pub sends_part :
      (buffer : Bytes) (o : O)
      → (n : ℕ) × (AsyncWrite.sent base (write_all buffer o).1
          ≡ AsyncWrite.sent base o ++ take n buffer)
  pub flush_silent : (o : O) → AsyncWrite.sent base (flush o).1 ≡ AsyncWrite.sent base o
