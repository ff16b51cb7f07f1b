-- ===== src/Tests/Writer.antt =====
-- body/src/writer.rs and body/src/writer/content_length.rs, over a sink that takes three bytes at once.
use jrpxy.Prelude.{◌≤◌, ◌≡◌, refl, [], ◌++◌, Bytes, true, codes, length}
use jrpxy.Tests.Sink.{slow}
use jrpxy.Body.Writer.{advance, write_some, checked_add, poll_write_bounded}
use jrpxy.Body.Writer.Bounded.{Wrote, poll_write_bounded-Wrote}
use jrpxy.Body.Writer.ContentLength.{
  Write, Finish, new, open_chunk, finish, into_write, into_close, into_ready, poll_write,
  poll_finish, flush_outcome,
}
use jrpxy.Body.Writer.ContentLength.Moves.{
  in_ready, in_write, in_finish, opens, starts, writes, closes, returns, finishes, flushes,
}
use jrpxy.Body.Writer.ContentLength.Sends.{Run, start, move, sent_body}

abbrev chunk : Write Bytes
chunk = record { writer = []; total_length = 4; offset = 0; chunk_length = 4; chunk_offset = 0 }

abbrev later : Write Bytes
later = record chunk { writer = codes "abc"; chunk_offset = 3 }

abbrev whole : Write Bytes
whole = record chunk { writer = codes "abcd"; chunk_offset = 4 }

all_sent :
    Run slow
      (in_ready (new [] 4))
      (in_finish (record { writer = codes "abcd"; flushed = true }))
      (codes "abcd")
unfolding new open_chunk finish into_write into_close into_ready poll_write poll_finish
    poll_write_bounded checked_add write_some advance flush_outcome
all_sent =
    move {out = codes "abcd"}
      (move {out = codes "abcd"}
        (move {out = codes "abcd"}
          (move {out = codes "abcd"}
            (move {t = in_write later} {out = codes "abc"}
              (move {t = in_write chunk} {out = []}
                (move {out = []} (move {out = []} start (opens 4 refl) refl) (starts refl) refl)
                (writes (codes "abcd")) refl)
              (writes (codes "d")) refl)
            (closes {w = whole} refl) refl)
          (returns refl) refl)
        (finishes refl) refl)
      flushes refl

sent_body_example :
    (codes "abcd" ≡ [] ++ codes "abcd")
    × (length (codes "abcd") ≤ 4)
    × ((f : Finish Bytes)
        → in_finish (record { writer = codes "abcd"; flushed = true }) ≡ in_finish f
        → length (codes "abcd") ≡ 4)
unfolding new
sent_body_example = sent_body slow [] 4 all_sent

poll_write_bounded-Wrote_example :
    Wrote slow 4 1 (codes "xyz") (codes "a") (poll_write_bounded slow 4 1 (codes "xyz") (codes "a"))
poll_write_bounded-Wrote_example = poll_write_bounded-Wrote slow 4 1 (codes "xyz") (codes "a")
