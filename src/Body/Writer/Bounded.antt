-- ===== src/Body/Writer/Bounded.antt =====
-- body/src/writer.rs: `poll_write_bounded`, by what it sends and how far it moves the offset.
use jrpxy.Prelude.{
  ℕ, ◌+◌, ◌≤◌, leb, ltb, Bytes, Result, ok, err, ◌++◌, ◌≡◌, refl, sym, ap, ◌∙◌, arith, Bool-cases,
  inl, inr, length, length-take, append-nil, u64_max,
}
use jrpxy.Util.Async.{Poll, pending, ready, AsyncWrite, accepted}
use jrpxy.Body.Error.{BodyError}
use jrpxy.Body.Writer.{checked_add, advance, write_some, poll_write_bounded}

-- The offset moves by the number of bytes that the poll reports.
advance-accepted :
    {E : Type 0} (offset : ℕ) (buffer : Bytes) (p : Poll (Result ℕ E))
    → ((n : ℕ) → p ≡ ready (ok n) → n ≤ length buffer)
    → ((advance offset p).1 ≡ offset + length (accepted p buffer))
      × (accepted (advance offset p).0 buffer ≡ accepted p buffer)
      × (length (accepted p buffer) ≤ length buffer)
unfolding advance
advance-accepted offset buffer pending h = (omega arith, refl, omega arith)
advance-accepted offset buffer (ready (err e)) h = (omega arith, refl, omega arith)
advance-accepted offset buffer (ready (ok n)) h =
    (omega (arith, h n refl, length-take n buffer), refl, omega (arith, length-take n buffer))

module _ {O E : Type 0} (sink : AsyncWrite O E) where
  pub record Wrote (max_length offset : ℕ) (buffer : Bytes) (writer : O)
      (out : Poll (Result ℕ (BodyError E)) × ℕ × O) : Type 0 where
    pub counts : out.1 ≡ offset + length (accepted out.0 buffer)
    pub sends : sink.sent out.2 ≡ sink.sent writer ++ accepted out.0 buffer
    pub bounded : offset ≤ max_length → out.1 ≤ max_length

  write_some-Wrote :
      (max_length offset : ℕ) (buffer : Bytes) (writer : O)
      → offset + length buffer ≤ max_length
      → Wrote max_length offset buffer writer (write_some sink offset buffer writer)
  unfolding write_some
  write_some-Wrote max_length offset buffer writer le =
      let (count, same, short) =
        advance-accepted offset buffer (sink.poll_write writer buffer).0
          (sink.takes writer buffer) in
      record {
        counts = count ∙ ap (λ (bs : Bytes). offset + length bs) (sym same);
        sends = sink.sends writer buffer ∙ ap (◌++◌ (sink.sent writer)) (sym same);
        bounded = λ h. omega (arith, count, short, le);
      }

  refused-Wrote :
      (max_length offset : ℕ) (buffer : Bytes) (writer : O) (e : BodyError E)
      → Wrote max_length offset buffer writer (ready (err e), offset, writer)
  refused-Wrote max_length offset buffer writer e = record {
    counts = omega arith;
    sends = sym (append-nil (sink.sent writer));
    bounded = λ h. h;
  }

  -- Whatever the outcome of a bounded write: the sink has taken the front part of the buffer whose length
  -- is reported (nothing, if none is), the offset moves by that length, and an offset within the
  -- bound stays within it.
  pub poll_write_bounded-Wrote :
      (max_length offset : ℕ) (buffer : Bytes) (writer : O)
      → Wrote max_length offset buffer writer
          (poll_write_bounded sink max_length offset buffer writer)
  unfolding poll_write_bounded checked_add
  poll_write_bounded-Wrote max_length offset buffer writer =
      elim (Bool-cases (leb (offset + length buffer) u64_max)) [
        | inr a ↦
            rw (poll_write_bounded, checked_add, a)
              (refused-Wrote max_length offset buffer writer _)
        | inl a ↦ elim (Bool-cases (ltb max_length (offset + length buffer))) [
          | inl b ↦
              rw (poll_write_bounded, checked_add, a, b)
                (refused-Wrote max_length offset buffer writer _)
          | inr b ↦
              rw (poll_write_bounded, checked_add, a, b)
                (write_some-Wrote max_length offset buffer writer (ground arith))
        ]
      ]
