-- ===== src/Tests/Sink.antt =====
-- Sinks for the tests: one takes three bytes at once, and its extension all of them.
use jrpxy.Prelude.{
  ℕ, ◌≤◌, ◌≡◌, refl, arith, ◌++◌, Bytes, Result, ok, length, take, take_all, min, ap, sym,
}
use jrpxy.Util.Async.{Poll, ready, AsyncWrite, AsyncWriteExt}

pub takes_min :
    (buffer : Bytes) (n : ℕ)
    → ◌≡◌ {A = Poll (Result ℕ Unit)} (ready (ok (min 3 (length buffer)))) (ready (ok n))
    → n ≤ length buffer
takes_min buffer n h = let e : min 3 (length buffer) ≡ n = cc in omega (arith, e)

abbrev pub slow : AsyncWrite Bytes Unit
slow = record {
  poll_write =
      λ o buffer. (ready (ok (min 3 (length buffer))), o ++ take (min 3 (length buffer)) buffer);
  poll_flush = λ o. (ready (ok tt), o);
  write_zero = tt;
  sent = λ o. o;
  takes = λ o buffer n h. takes_min buffer n h;
  sends = λ o buffer. refl;
  flushes = λ o. refl;
}

pub all_taken : (buffer o : Bytes) → o ++ buffer ≡ o ++ take (length buffer) buffer
all_taken buffer o = ap (◌++◌ o) (sym (take_all (length buffer) buffer (omega arith)))

abbrev pub whole : AsyncWriteExt Bytes Unit
whole = record {
  base = slow;
  write_all = λ buffer o. (ok tt, o ++ buffer);
  flush = λ o. (ok tt, o);
  sends_all = λ buffer o h. refl;
  sends_part = λ buffer o. (length buffer, all_taken buffer o);
  flush_silent = λ o. refl;
}
