-- ===== src/Body/Reader/ContentLength.antt =====
-- body/src/reader/content_length.rs. A poll that panics has no result (`none`). `u64` and `usize`
-- have the same 64 bits, so the conversion of what remains cannot fail.
pub mod Stream
pub mod Drain
use jrpxy.Prelude.{
  ℕ, zero, suc, ◌+◌, ◌-◌, Bool, ◌==◌, ltb, if◌then◌else◌, Option, none, some, Bytes, min, Result,
  ok, err,
}
use jrpxy.Util.Async.{Poll, pending, ready, AsyncRead}
use jrpxy.Util.IoBuffer.{BytesReader, len, split_to}
use jrpxy.Body.Error.{BodyError}
use jrpxy.Body.Reader.{Polled, poll_ensure, drain_size}

pub record ContentLengthBodyReader (I : Type 0) : Type 0 where
  pub length : ℕ
  pub offset : ℕ
  pub reader : BytesReader I

module _ {I : Type 0} where
  unfoldable pub new : ℕ → BytesReader I → ContentLengthBodyReader I
  new length reader = record { length = length; offset = 0; reader = reader }

  -- Behind the `debug_assert!` that the offset is no more than the length.
  abbrev pub remaining : ContentLengthBodyReader I → ℕ
  remaining s = s.length - s.offset

  unfoldable pub drained : ContentLengthBodyReader I → Bool
  drained s = remaining s == 0

  -- The `assert_eq!` of `finish` panics before the body is drained.
  unfoldable pub finish : ContentLengthBodyReader I → Option (BytesReader I)
  finish s = if s.offset == s.length then some s.reader else none

module _ {I E : Type 0} where
  -- What follows `poll_ensure`.
  after_ensure :
      ℕ
      → ContentLengthBodyReader I
      → Poll (Result Unit (BodyError E))
      → Polled (ContentLengthBodyReader I) (Option Bytes) E
  after_ensure max_len s pending = some (pending, s)
  after_ensure max_len s (ready (err e)) = some (ready (err e), s)
  after_ensure max_len s (ready (ok _)) =
      let at = min (min (remaining s) (len s.reader)) max_len in
      elim (split_to s.reader at) [
        | none ↦ none
        | some (bs, r) ↦
            some (ready (ok (some bs)), record s { offset = s.offset + at; reader = r })
      ]

  unfoldable pub poll_read :
      AsyncRead I E
      → ℕ
      → ContentLengthBodyReader I
      → Polled (ContentLengthBodyReader I) (Option Bytes) E
  unfolding after_ensure
  poll_read source max_len s =
      if ltb s.length s.offset
      then none
      else if remaining s == 0
      then some (ready (ok none), s)
      else (let (outcome, r) = poll_ensure source s.reader in
          after_ensure max_len (record s { reader = r }) outcome)

  -- The loop of `poll_drain` on fuel; `none` is a panic, or that the fuel ran out.
  unfoldable pub poll_drain :
      AsyncRead I E → ℕ → ContentLengthBodyReader I → Polled (ContentLengthBodyReader I) Unit E
  poll_drain source zero s = none
  poll_drain source (suc fuel) s = elim (poll_read source drain_size s) [
    | none ↦ none
    | some (pending, s') ↦ some (pending, s')
    | some (ready (err e), s') ↦ some (ready (err e), s')
    | some (ready (ok none), s') ↦ some (ready (ok tt), s')
    | some (ready (ok (some _)), s') ↦ poll_drain source fuel s'
  ]
