-- ===== src/Body/Writer/All/Writes.antt =====
-- body/src/writer/content_length.rs, chunked.rs and eof.rs: what `write_all` sends.
use jrpxy.Prelude.{
  ℕ, zero, suc, ◌<◌, [], ◌∷◌, ◌++◌, Option, some, Bytes, Result, ok, err, ◌≡◌, refl, ap, ◌∙◌, arith,
  length, take, drop, length-drop, take-append-drop, append_assoc, append-nil,
}
use jrpxy.Util.Async.{Poll, pending, ready, AsyncWrite, accepted}
use jrpxy.Body.Error.{BodyError, body_write_error}
use jrpxy.Body.Writer.Bounded.{poll_write_bounded-Wrote}
use jrpxy.Body.Writer.ContentLength
use jrpxy.Body.Writer.Chunked
use jrpxy.Body.Writer.Eof
use jrpxy.Body.Writer.All.{
  Writing, take_written, poll_write_all, write_all_of_length, write_all_of_chunk, write_all_to_eof,
}

-- Only success means that nothing is left.
abbrev pub Left : {E : Type 0} → Poll (Result Unit (BodyError E)) → Bytes → Type 0
Left (ready (ok _)) rest = rest ≡ []
Left _ rest = Unit

module _ {S E : Type 0} (sent : S → Bytes) where
  -- The loop has an outcome: what it was to send is sent or is left, in order.
  pub record WritesAll (buffer : Bytes) (s : S) (p : Option (Writing S E)) : Type 0 where
    pub outcome : Poll (Result Unit (BodyError E))
    pub rest : Bytes
    pub writer : S
    pub returns : p ≡ some (outcome, rest, writer)
    pub splits : sent writer ++ rest ≡ sent s ++ buffer
    pub left : Left outcome rest

module _ {S E : Type 0} (write_zero : E)
    (poll_write : Bytes → S → Poll (Result ℕ (BodyError E)) × S) (sent : S → Bytes)
    (sends : (bs : Bytes) (s : S)
      → sent (poll_write bs s).1 ≡ sent s ++ accepted (poll_write bs s).0 bs) where
  nothing_taken : (bs before after : Bytes) → after ≡ before ++ [] → after ++ bs ≡ before ++ bs
  nothing_taken bs before after h = ap (λ (x : Bytes). x ++ bs) (h ∙ append-nil before)

  turn-WritesAll :
      (buffer : Bytes) (s s' : S) (k : Bytes → S → Option (Writing S E))
      (p : Poll (Result ℕ (BodyError E)))
      → sent s' ≡ sent s ++ accepted p buffer
      → ((w : ℕ)
          → p ≡ ready (ok (suc w))
          → WritesAll sent (drop (suc w) buffer) s' (k (drop (suc w) buffer) s'))
      → WritesAll sent buffer s (take_written write_zero buffer k p s')
  unfolding take_written
  turn-WritesAll buffer s s' k pending h next = record {
    outcome = pending;
    rest = buffer;
    writer = s';
    returns = refl;
    splits = nothing_taken buffer (sent s) (sent s') h;
    left = tt;
  }
  turn-WritesAll buffer s s' k (ready (err e)) h next = record {
    outcome = ready (err e);
    rest = buffer;
    writer = s';
    returns = refl;
    splits = nothing_taken buffer (sent s) (sent s') h;
    left = tt;
  }
  turn-WritesAll buffer s s' k (ready (ok zero)) h next = record {
    outcome = ready (err (body_write_error write_zero));
    rest = buffer;
    writer = s';
    returns = refl;
    splits = nothing_taken buffer (sent s) (sent s') h;
    left = tt;
  }
  turn-WritesAll buffer s s' k (ready (ok (suc w))) h next =
      let d = next w refl in
      record {
        outcome = d.outcome;
        rest = d.rest;
        writer = d.writer;
        returns = d.returns;
        splits =
            d.splits
            ∙ ap (λ (x : Bytes). x ++ drop (suc w) buffer) h
            ∙ append_assoc (sent s) (take (suc w) buffer) (drop (suc w) buffer)
            ∙ ap (◌++◌ (sent s)) (take-append-drop (suc w) buffer);
        left = d.left;
      }

  pub poll_write_all-WritesAll :
      (fuel : ℕ) (buffer : Bytes) (s : S)
      → length buffer < fuel
      → WritesAll sent buffer s (poll_write_all write_zero poll_write fuel buffer s)
  unfolding poll_write_all
  poll_write_all-WritesAll zero buffer s lt = absurd (omega (arith, lt))
  poll_write_all-WritesAll (suc fuel) [] s lt = record {
    outcome = ready (ok tt);
    rest = [];
    writer = s;
    returns = refl;
    splits = refl;
    left = refl;
  }
  poll_write_all-WritesAll (suc fuel) (b ∷ bs) s lt =
      turn-WritesAll (b ∷ bs) s (poll_write (b ∷ bs) s).1
        (poll_write_all write_zero poll_write fuel) (poll_write (b ∷ bs) s).0 (sends (b ∷ bs) s)
        (λ w e.
          poll_write_all-WritesAll fuel (drop (suc w) (b ∷ bs)) (poll_write (b ∷ bs) s).1
            (omega (arith, length-drop (suc w) (b ∷ bs), lt)))

module _ {O E : Type 0} (sink : AsyncWrite O E) where
  length-sends :
      (bs : Bytes) (w : ContentLength.Write O)
      → sink.sent (ContentLength.poll_write sink bs w).1.writer
        ≡ sink.sent w.writer ++ accepted (ContentLength.poll_write sink bs w).0 bs
  unfolding ContentLength.poll_write
  length-sends bs w =
      (poll_write_bounded-Wrote sink w.chunk_length w.chunk_offset bs w.writer).sends

  -- The same for a body of known length.
  pub write_all_of_length-WritesAll :
      (fuel : ℕ) (buffer : Bytes) (w : ContentLength.Write O)
      → length buffer < fuel
      → WritesAll
          (λ (w' : ContentLength.Write O). sink.sent w'.writer)
          buffer
          w
          (write_all_of_length sink fuel buffer w)
  unfolding write_all_of_length
  write_all_of_length-WritesAll fuel buffer w lt =
      poll_write_all-WritesAll sink.write_zero (ContentLength.poll_write sink)
        (λ w'. sink.sent w'.writer) length-sends fuel buffer w lt

  eof-sends :
      (bs : Bytes) (w : Eof.Write O)
      → sink.sent (Eof.poll_write sink bs w).1.writer
        ≡ sink.sent w.writer ++ accepted (Eof.poll_write sink bs w).0 bs
  unfolding Eof.poll_write
  eof-sends bs w = (poll_write_bounded-Wrote sink w.chunk_length w.chunk_offset bs w.writer).sends

  -- The same for a body up to the end of the connection.
  pub write_all_to_eof-WritesAll :
      (fuel : ℕ) (buffer : Bytes) (w : Eof.Write O)
      → length buffer < fuel
      → WritesAll
          (λ (w' : Eof.Write O). sink.sent w'.writer)
          buffer
          w
          (write_all_to_eof sink fuel buffer w)
  unfolding write_all_to_eof
  write_all_to_eof-WritesAll fuel buffer w lt =
      poll_write_all-WritesAll sink.write_zero (Eof.poll_write sink) (λ w'. sink.sent w'.writer)
        eof-sends fuel buffer w lt

  chunked-sends :
      (bs : Bytes) (w : Chunked.Write O)
      → sink.sent (Chunked.poll_write sink bs w).1.writer
        ≡ sink.sent w.writer ++ accepted (Chunked.poll_write sink bs w).0 bs
  unfolding Chunked.poll_write
  chunked-sends bs w =
      (poll_write_bounded-Wrote sink w.chunk_length w.chunk_offset bs w.writer).sends

  -- `write_all` in a chunk, on fuel beyond the length of the buffer, has an outcome, for any sink. The front of the
  -- buffer has been sent, and what it reports as left is the rest of it, in order; it reports success only if
  -- nothing is left.
  pub write_all_of_chunk-WritesAll :
      (fuel : ℕ) (buffer : Bytes) (w : Chunked.Write O)
      → length buffer < fuel
      → WritesAll
          (λ (w' : Chunked.Write O). sink.sent w'.writer)
          buffer
          w
          (write_all_of_chunk sink fuel buffer w)
  unfolding write_all_of_chunk
  write_all_of_chunk-WritesAll fuel buffer w lt =
      poll_write_all-WritesAll sink.write_zero (Chunked.poll_write sink) (λ w'. sink.sent w'.writer)
        chunked-sends fuel buffer w lt
