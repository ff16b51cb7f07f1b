-- ===== src/Body/Reader/Eof.antt =====
-- body/src/reader/eof.rs. A poll that panics has no result (`none`).
pub mod Stream
use jrpxy.Prelude.{
  ℕ, zero, suc, ◌==◌, Bool, true, false, if◌then◌else◌, Option, none, some, Bytes, min, Result, ok,
  err,
}
use jrpxy.Util.Async.{Poll, pending, ready, AsyncRead}
use jrpxy.Util.IoBuffer.{BytesReader, len, split_to, do_fill}
use jrpxy.Body.Error.{BodyError, body_read_error}
use jrpxy.Body.Reader.{Polled}

pub record EofBodyReader (I : Type 0) : Type 0 where
  pub reader : BytesReader I
  pub eof : Bool

module _ {I : Type 0} where
  unfoldable pub new : BytesReader I → EofBodyReader I
  new reader = record { reader = reader; eof = false }

  abbrev pub drained : EofBodyReader I → Bool
  drained s = s.eof

module _ {I E : Type 0} where
  -- Returns data that is already buffered.
  pub take_buffered : ℕ → EofBodyReader I → Polled (EofBodyReader I) (Option Bytes) E
  take_buffered max_len s = elim (split_to s.reader (min (len s.reader) max_len)) [
    | none ↦ none
    | some (bs, r) ↦ some (ready (ok (some bs)), record s { reader = r })
  ]

  -- What follows the read.
  pub after_read :
      ℕ → EofBodyReader I → Poll (Result ℕ E) → Polled (EofBodyReader I) (Option Bytes) E
  unfolding take_buffered
  after_read max_len s pending = some (pending, s)
  after_read max_len s (ready (err e)) = some (ready (err (body_read_error e)), s)
  after_read max_len s (ready (ok zero)) = some (ready (ok none), record s { eof = true })
  after_read max_len s (ready (ok (suc n))) = take_buffered max_len s

  unfoldable pub poll_read :
      AsyncRead I E → ℕ → EofBodyReader I → Polled (EofBodyReader I) (Option Bytes) E
  unfolding take_buffered after_read
  poll_read source max_len s =
      if s.eof
      then some (ready (ok none), s)
      else if len s.reader == 0
      then (let (outcome, r) = do_fill source max_len s.reader in
          after_read max_len (record s { reader = r }) outcome)
      else take_buffered max_len s
