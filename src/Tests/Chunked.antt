-- ===== src/Tests/Chunked.antt =====
-- body/src/writer/chunked.rs, over a sink that takes three bytes at once.
use jrpxy.Prelude.{
  suc, ◌≡◌, refl, arith, List, [], ◌∷◌, ◌++◌, Bytes, true, some, ok, codes, length, to_hex,
}
use jrpxy.Tests.Sink.{slow}
use jrpxy.Util.Async.{ready}
use jrpxy.HttpMessage.Header.{Headers}
use jrpxy.Body.Writer.{advance, write_some, checked_add, poll_write_bounded}
use jrpxy.Body.Writer.ContentLength.{flush_outcome}
use jrpxy.Body.Writer.Loop.{Progress, Sent, poll_send, poll_send-Sent, take_turn}
use jrpxy.Body.Writer.Chunked.{
  Ready, Open, Write, Close, Finish, new, open_chunk, finish_with_trailers, into_write, into_close,
  into_ready, into_writer, poll_open, poll_write, poll_close, poll_finish, finish_sent,
  finish_flush, chunk_header, footer_of, terminal_bytes, trailer_lines,
}
use jrpxy.Body.Writer.Chunked.Moves.{
  in_ready, in_open, in_write, in_close, in_finish, opens, sends_header, starts, writes, closes,
  sends_footer, returns, finishes, sends_terminal, encode, concat,
}
use jrpxy.Body.Writer.All.{write_all_of_chunk}
use jrpxy.Body.Writer.All.Writes.{WritesAll, write_all_of_chunk-WritesAll}
use jrpxy.Body.Writer.Chunked.Sends.{Run, start, move, chunked_body}
use jrpxy.HttpMessage.Heads.Reads.{trimmed_values}
use jrpxy.Util.Parse.{is_valid_field_name, is_valid_field_value}
use jrpxy.Util.Parse.Tables.{is_valid_tchar, is_valid_field_vchar}
use jrpxy.Body.Writer.Chunked.Decodes.{decode, decode-encode}

abbrev pub one_trailer : Headers
one_trailer = record { headers = (codes "a", codes "b") ∷ [] }

-- What has been written before the body.
abbrev pub request_head : Bytes
request_head = codes "GET / HTTP/1.1\r\ntransfer-encoding: chunked\r\n\r\n"

abbrev pub ended : Finish Bytes
ended = record {
  writer = request_head ++ codes "2\r\nhi\r\n0\r\na: b\r\n\r\n";
  terminal = codes "0\r\na: b\r\n\r\n";
  written = 11;
  flushed = true;
}

abbrev opened : Open Bytes
opened = record {
  writer = request_head ++ codes "2\r\n";
  header = codes "2\r\n";
  written = 3;
  chunk_length = 2;
}

abbrev writing : Write Bytes
writing = record { writer = request_head ++ codes "2\r\n"; chunk_length = 2; chunk_offset = 0 }

abbrev wrote : Write Bytes
wrote = record { writer = request_head ++ codes "2\r\nhi"; chunk_length = 2; chunk_offset = 2 }

abbrev closing : Close Bytes
closing = record {
  writer = request_head ++ codes "2\r\nhi";
  footer = codes "\r\n";
  footer_written = 0;
}

abbrev closed : Close Bytes
closed = record {
  writer = request_head ++ codes "2\r\nhi\r\n";
  footer = codes "\r\n";
  footer_written = 2;
}

abbrev next : Ready Bytes
next = record { writer = request_head ++ codes "2\r\nhi\r\n" }

chunk_written : Run slow one_trailer (in_ready (new request_head)) (in_write wrote) (codes "hi")
unfolding new open_chunk into_write poll_open poll_write poll_send take_turn poll_write_bounded
    checked_add write_some advance chunk_header to_hex
chunk_written =
    move {t = in_write writing} {out = []}
      (move {t = in_open opened} {out = []}
        (move {out = []} (move {out = []} start (opens 2) refl)
          (sends_header {o = open_chunk 2 (new request_head)} {o' = opened} {p = ready (ok tt)}
            refl)
          refl)
        (starts {o = opened} {w = writing} refl) refl)
      (writes (codes "hi")) refl

pub hi_sent : Run slow one_trailer (in_ready (new request_head)) (in_finish (ended)) (codes "hi")
unfolding finish_with_trailers into_close into_ready poll_close poll_finish poll_send take_turn
    finish_sent finish_flush flush_outcome footer_of terminal_bytes trailer_lines
hi_sent =
    move {out = codes "hi"}
      (move {out = codes "hi"}
        (move {t = in_close closed} {out = codes "hi"}
          (move {t = in_close closing} {out = codes "hi"}
            (move {out = codes "hi"} chunk_written (closes {w = wrote} {c = closing} refl) refl)
            (sends_footer {c = closing} {c' = closed} {p = ready (ok tt)} refl) refl)
          (returns {c = closed} {r = next} refl) refl)
        finishes refl)
      (sends_terminal {f = finish_with_trailers one_trailer next} {f' = ended} {p = ready (ok tt)}
        refl)
      refl

pub hi_complete :
    into_writer {E = Unit} ended ≡ ok (request_head ++ codes "2\r\nhi\r\n0\r\na: b\r\n\r\n")
unfolding into_writer
hi_complete = refl

chunked_body_example :
    (chunks : List Bytes) × (concat chunks ≡ codes "hi")
    × (request_head ++ codes "2\r\nhi\r\n0\r\na: b\r\n\r\n"
        ≡ (request_head ++ encode chunks) ++ terminal_bytes one_trailer)
unfolding new
chunked_body_example =
    chunked_body slow one_trailer request_head
      (request_head ++ codes "2\r\nhi\r\n0\r\na: b\r\n\r\n") hi_sent hi_complete

decode-encode_example :
    decode 3 (encode (codes "hi" ∷ []) ++ (terminal_bytes one_trailer ++ codes "GET"))
    ≡ some (concat (codes "hi" ∷ []), trimmed_values one_trailer.headers, codes "GET")
unfolding is_valid_field_name is_valid_field_value is_valid_tchar is_valid_field_vchar
decode-encode_example =
    decode-encode 3 (codes "hi" ∷ []) one_trailer (codes "GET") ((refl, refl), tt) (omega arith)

poll_send-Sent_example :
    (p : Progress Bytes Unit) × (poll_send slow
        (suc (length (codes "abcde")))
        (codes "abcde")
        1
        (codes "a")
      ≡ some p)
    × Sent slow (codes "abcde") 1 (codes "a") p
poll_send-Sent_example = poll_send-Sent slow (codes "abcde") 1 (codes "a") (omega arith)

abbrev chunk_of_five : Write Bytes
chunk_of_five = record {
  writer = request_head ++ codes "5\r\n";
  chunk_length = 5;
  chunk_offset = 0;
}

write_all_of_chunk-WritesAll_example :
    WritesAll {E = Unit}
      (λ (w : Write Bytes). w.writer)
      (codes "hello")
      chunk_of_five
      (write_all_of_chunk slow 6 (codes "hello") chunk_of_five)
write_all_of_chunk-WritesAll_example =
    write_all_of_chunk-WritesAll slow 6 (codes "hello") chunk_of_five (omega arith)
