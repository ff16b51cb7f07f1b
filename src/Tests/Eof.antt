-- ===== src/Tests/Eof.antt =====
-- body/src/reader/eof.rs, over a source that replays chunks.
use jrpxy.Prelude.{◌≡◌, refl, [], ◌++◌, Bytes, true, false, some, none, ok, codes, replicate, arith}
use jrpxy.Util.Async.{ready}
use jrpxy.Util.IoBuffer.{BytesReader, do_fill, split_to}
use jrpxy.Util.IoBuffer.Fills.{IsValid}
use jrpxy.Body.Reader.Eof.{EofBodyReader, new, poll_read}
use jrpxy.Body.Reader.Eof.Stream.{Reads, start, poll, drained_body}
use jrpxy.Tests.Script.{Script, replay, script}

-- Two bytes are buffered, and the source has closed.
abbrev closing : BytesReader Script
closing = record {
  io = record { got = codes "HT"; chunks = [] };
  buffer = record { buffer = codes "HTxx"; position = 2 };
}

closing-IsValid : IsValid closing.buffer
closing-IsValid = record { within = omega arith; addressable = omega arith }

abbrev empty : EofBodyReader Script
empty = record {
  reader = record closing { buffer = record { buffer = codes "xx"; position = 0 } };
  eof = false;
}

abbrev ended : EofBodyReader Script
ended = record {
  reader = record closing {
    buffer = record { buffer = codes "xx" ++ replicate 2 0; position = 0 };
  };
  eof = true;
}

polls_to_end : Reads script (new closing) ended (codes "HT")
unfolding new poll_read do_fill split_to replay
polls_to_end =
    poll 4 {t = empty} {o = ready (ok none)} {out = codes "HT"}
      (poll 10 {t = new closing} {o = ready (ok (some (codes "HT")))} {out = []} start refl refl)
      refl refl

drained_body_example :
    (arrived : Bytes) × (codes "HT" ≡ codes "HT" ++ arrived)
    × (codes "HT" ++ arrived ≡ codes "HT" ++ [])
    × (ended.eof ≡ true → codes "HT" ++ arrived ≡ codes "HT")
drained_body_example =
    drained_body script closing {t = ended} {out = codes "HT"} closing-IsValid polls_to_end
