-- ===== src/Tests/Body.antt =====
-- util/src/io_buffer.rs and body/src/reader/content_length.rs, over a source that replays chunks.
use jrpxy.Prelude.{ℕ, ◌<◌, ◌≡◌, refl, [], ◌∷◌, ◌++◌, Bytes, some, ok, codes, length, arith}
use jrpxy.Tests.Script.{Script, script}
use jrpxy.Util.Async.{ready}
use jrpxy.Util.IoBuffer.{BytesReader, len, ensure, split_to}
use jrpxy.Util.IoBuffer.Fills.{IsValid, Gains, ensured, ensure-Gains}
use jrpxy.Body.Reader.{poll_ensure}
use jrpxy.Body.Reader.ContentLength.{ContentLengthBodyReader, new, finish, poll_read, poll_drain}
use jrpxy.Body.Reader.ContentLength.Stream.{Reads, start, poll, finish_body}
use jrpxy.Body.Reader.ContentLength.Drain.{Drained, poll_drain-Drains}

-- Two bytes are buffered, and five more are on their way.
abbrev opened : BytesReader Script
opened = record {
  io = record { got = codes "HT"; chunks = codes "TP/" ∷ [] ∷ codes "1." ∷ [] };
  buffer = record { buffer = codes "HTxx"; position = 2 };
}

opened-IsValid : IsValid opened.buffer
opened-IsValid = record { within = omega arith; addressable = omega arith }

-- Nothing is buffered.
abbrev dry : BytesReader Script
dry = record opened { buffer = record { buffer = codes "xx"; position = 0 } }

dry-IsValid : IsValid dry.buffer
dry-IsValid = record { within = omega arith; addressable = omega arith }

ensure-Gains_example :
    Gains script dry (ensure script 8 dry).1 (ensured script 8 dry)
    × ((ensure script 8 dry).0 ≡ ready (ok tt) → 0 < len (ensure script 8 dry).1)
ensure-Gains_example = ensure-Gains script 8 dry dry-IsValid

-- A body of four bytes, in front of a fifth.
abbrev behind : ℕ → Bytes → ContentLengthBodyReader Script
behind offset rest = record {
  length = 4;
  offset = offset;
  reader = record opened { buffer = record { buffer = rest; position = length rest } };
}

abbrev body : ContentLengthBodyReader Script
body = new 4 (behind 0 (codes "abcd/")).reader

body-IsValid : IsValid body.reader.buffer
unfolding new
body-IsValid = record { within = omega arith; addressable = omega arith }

whole_body : Reads script body (behind 4 (codes "/")) (codes "abcd")
unfolding new poll_read poll_ensure ensure split_to
whole_body =
    poll 10 {t = behind 3 (codes "d/")} {o = ready (ok (some (codes "d")))} {out = codes "abc"}
      (poll 3 {t = body} {o = ready (ok (some (codes "abc")))} {out = []} start refl refl) refl refl

finish_body_example :
    (length (codes "abcd") ≡ 4)
    × (arrived : Bytes) × (codes "HT" ≡ codes "HT" ++ arrived)
    × (codes "abcd/" ++ arrived ≡ codes "abcd" ++ codes "/")
unfolding new finish
finish_body_example =
    finish_body script 4 body.reader {r' = (behind 4 (codes "/")).reader} {out = codes "abcd"}
      body-IsValid whole_body refl

drains : poll_drain script 3 body ≡ some (ready (ok tt), behind 4 (codes "/"))
unfolding new poll_drain poll_read poll_ensure ensure split_to
drains = refl

poll_drain-Drains_example : Drained script 5 body
unfolding new
poll_drain-Drains_example =
    poll_drain-Drains script 5 body (record { valid = body-IsValid; within = omega arith })
      (omega arith)
