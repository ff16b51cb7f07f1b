-- ===== src/Body/Reader/Ensures.antt =====
-- body/src/reader.rs: the polls for more data, by what they do to the stream.
use jrpxy.Prelude.{◌<◌, ◌≤◌, ◌≢◌, ◌∷◌, Bytes, length, arith, [], ◌≡◌, refl, Result, ok, err}
use jrpxy.Util.Async.{Poll, pending, ready, AsyncRead}
use jrpxy.Util.IoBuffer.{ReaderBufferError, BytesReader, len, ensure, extend}
use jrpxy.Util.IoBuffer.Fills.{IsValid, ensure-Gains, extend-Gains, extend-ok, Gains-len, arrivals}
use jrpxy.Util.IoBuffer.Flows.{Flows, Flows-of-Gains}
use jrpxy.Body.Reader.{io_fill_len, with_body_error, poll_ensure, poll_extend}

length-pos : (bs : Bytes) → bs ≢ [] → 0 < length bs
length-pos [] h = absurd (h refl)
length-pos (b ∷ bs) h = omega arith

with_body_error-ok :
    {E : Type 0} (p : Poll (Result Unit (ReaderBufferError E)))
    → with_body_error p ≡ ready (ok tt)
    → p ≡ ready (ok tt)
unfolding with_body_error
with_body_error-ok pending h = cc
with_body_error-ok (ready (ok _)) h = refl
with_body_error-ok (ready (err e)) h = cc

module _ {I E : Type 0} (source : AsyncRead I E) (r : BytesReader I) (v : IsValid r.buffer) where
  pub poll_ensure-Flows : Flows source r (poll_ensure source r).1 []
  unfolding poll_ensure
  poll_ensure-Flows = Flows-of-Gains source (ensure-Gains source io_fill_len r v).0

  -- When `poll_ensure` is ready with success there is data.
  pub poll_ensure-ok : (poll_ensure source r).0 ≡ ready (ok tt) → 0 < len (poll_ensure source r).1
  unfolding poll_ensure
  poll_ensure-ok h =
      (ensure-Gains source io_fill_len r v).1 (with_body_error-ok (ensure source io_fill_len r).0 h)

  pub poll_extend-Flows : Flows source r (poll_extend source r).1 []
  unfolding poll_extend
  poll_extend-Flows = Flows-of-Gains source (extend-Gains source io_fill_len r v)

  -- `poll_ensure` takes nothing away, and when `poll_extend` is ready with success there is more data.
  pub poll_ensure-len : len r ≤ len (poll_ensure source r).1
  unfolding poll_ensure
  poll_ensure-len = omega (arith, Gains-len source v (ensure-Gains source io_fill_len r v).0)

  pub poll_extend-ok :
      (poll_extend source r).0 ≡ ready (ok tt) → len r < len (poll_extend source r).1
  unfolding poll_extend
  poll_extend-ok h =
      let some_came =
        extend-ok source io_fill_len r (with_body_error-ok (extend source io_fill_len r).0 h) in
      omega (
        arith,
        Gains-len source v (extend-Gains source io_fill_len r v),
        length-pos (arrivals source io_fill_len r) some_came,
      )
