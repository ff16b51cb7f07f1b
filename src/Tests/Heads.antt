-- ===== src/Tests/Heads.antt =====
-- backend/src/writer.rs and frontend/src/writer.rs, over the sinks of the tests.
use jrpxy.Prelude.{
  ℕ, ◌≡◌, refl, arith, [], ◌∷◌, ◌++◌, Bytes, true, if◌then◌else◌, some, ok, codes, length,
  eq_ignore_ascii_case, to_decimal,
}
use jrpxy.Tests.Sink.{slow, whole}
use jrpxy.Tests.Chunked.{one_trailer, request_head, hi_sent, hi_complete}
use jrpxy.Util.Sends.{Io, Delivers, sent_on}
use jrpxy.Util.Parse.{is_valid_field_name, is_valid_field_value, is_valid_request_target}
use jrpxy.Util.Parse.Tables.{is_valid_tchar, is_valid_field_vchar}
use jrpxy.HttpMessage.Version.{http11}
use jrpxy.HttpMessage.Framing.{
  WriteFraming, chunked, strip_framing, preserves_framing, is_framing_header,
}
use jrpxy.HttpMessage.Framing
use jrpxy.HttpMessage.Header.{framing}
use jrpxy.HttpMessage.Message.{Request, Response}
use jrpxy.HttpMessage.Heads.{head_bytes, framing_field, write_fields, write_framing_field}
use jrpxy.HttpMessage.Heads.Framed.{announced}
use jrpxy.HttpMessage.Heads.Reads.{read_head, trimmed_values}
use jrpxy.Body.Writer.Chunked.{new}
use jrpxy.Body.Writer.Chunked.Decodes.{decode}
use jrpxy.Body.Writer.{advance, write_some, checked_add, poll_write_bounded}
use jrpxy.Body.Writer.ContentLength
use jrpxy.Body.Writer.ContentLength.Moves.{
  in_ready, in_write, in_finish, opens, starts, writes, closes, returns, finishes, flushes,
}
use jrpxy.Body.Writer.ContentLength.Sends.{Run, start, move}
use jrpxy.Backend.Writer.{
  send_as_content_length, write_request_to, send_as_chunked, hand_over, written,
}
use jrpxy.Backend.Writer.Sends.{
  request_line, request_fields, write_request_to-Delivers, sent_with_length,
}
use jrpxy.Backend.Writer.Reads.{IsValidRequest, decode-sent_chunked}
use jrpxy.Frontend.Writer.{write_response_to, response_filter}
use jrpxy.Frontend.Writer.Sends.{
  status_line, response_fields, write_response_to-Delivers, framing-response_fields,
}

abbrev root : Request
root = record {
  method = codes "GET";
  path = codes "/";
  version = http11;
  headers = record { headers = (codes "Content-Length", codes "7") ∷ [] };
}

abbrev found : Response
found = record {
  version = http11;
  code = 200;
  reason = codes "OK";
  headers = record { headers = (codes "Content-Length", codes "7") ∷ [] };
}

root-IsValidRequest : IsValidRequest root
unfolding is_valid_field_name is_valid_field_value is_valid_request_target is_valid_tchar
    is_valid_field_vchar
root-IsValidRequest = record { method = refl; path = refl; fields = ((refl, refl), tt) }

write_request_to-Delivers_example :
    (m : Io Bytes Unit) × (write_request_to whole root chunked ≡ some m)
    × Delivers whole [] (head_bytes (request_line root) (request_fields root chunked)) (m [])
unfolding preserves_framing
write_request_to-Delivers_example = write_request_to-Delivers whole root chunked [] refl

write_response_to-Delivers_example :
    Delivers whole []
      (head_bytes (status_line found) (response_fields found strip_framing))
      (write_response_to whole found strip_framing [])
write_response_to-Delivers_example = write_response_to-Delivers whole found strip_framing []

framing-response_fields_example :
    framing (record {
      headers =
          response_filter (Framing.WriteFraming.length 3) found.headers.headers
          ++ framing_field (Framing.WriteFraming.length 3);
    })
    ≡ (if preserves_framing (Framing.WriteFraming.length 3)
        then framing found.headers
        else ok (announced (Framing.WriteFraming.length 3)))
framing-response_fields_example =
    framing-response_fields found (Framing.WriteFraming.length 3) (omega arith)

root_sent : send_as_chunked {E = Unit} {M = Unit} whole root [] ≡ some (ok (new request_head))
unfolding send_as_chunked write_request_to write_fields write_framing_field written
    preserves_framing hand_over is_framing_header new eq_ignore_ascii_case
root_sent = refl

decode-sent_chunked_example :
    (bytes body : Bytes) × (fuel : ℕ) × (sent_on whole
        (request_head ++ codes "2\r\nhi\r\n0\r\na: b\r\n\r\n")
      ≡ sent_on whole [] ++ bytes)
    × (read_head fuel (bytes ++ codes "GET")
        ≡ some (request_line root, trimmed_values (request_fields root chunked), body))
    × (decode fuel body ≡ some (codes "hi", trimmed_values one_trailer.headers, codes "GET"))
unfolding is_valid_field_name is_valid_field_value is_valid_tchar is_valid_field_vchar
decode-sent_chunked_example =
    decode-sent_chunked whole {M = Unit} root []
      (request_head ++ codes "2\r\nhi\r\n0\r\na: b\r\n\r\n") one_trailer (codes "GET")
      root-IsValidRequest ((refl, refl), tt) root_sent hi_sent hi_complete

abbrev length_head : Bytes
length_head = codes "GET / HTTP/1.1\r\ncontent-length: 2\r\n\r\n"

abbrev writing : ContentLength.Write Bytes
writing = record {
  writer = length_head;
  total_length = 2;
  offset = 0;
  chunk_length = 2;
  chunk_offset = 0;
}

abbrev wrote : ContentLength.Write Bytes
wrote = record writing { writer = length_head ++ codes "hi"; chunk_offset = 2 }

abbrev finished : ContentLength.Finish Bytes
finished = record { writer = length_head ++ codes "hi"; flushed = true }

root_with_length :
    send_as_content_length {E = Unit} {M = Unit} whole root 2 []
    ≡ some (ok (ContentLength.new length_head 2))
unfolding send_as_content_length write_request_to write_fields write_framing_field written
    preserves_framing hand_over is_framing_header ContentLength.new eq_ignore_ascii_case to_decimal
root_with_length = refl

length_sent :
    Run slow (in_ready (ContentLength.new length_head 2)) (in_finish finished) (codes "hi")
unfolding ContentLength.new ContentLength.open_chunk ContentLength.finish ContentLength.into_write
    ContentLength.into_close ContentLength.into_ready ContentLength.poll_write
    ContentLength.poll_finish poll_write_bounded checked_add write_some advance
    ContentLength.flush_outcome
length_sent =
    move {out = codes "hi"}
      (move {out = codes "hi"}
        (move {out = codes "hi"}
          (move {out = codes "hi"}
            (move {t = in_write writing} {out = []}
              (move {out = []} (move {out = []} start (opens 2 refl) refl) (starts refl) refl)
              (writes (codes "hi")) refl)
            (closes {w = wrote} refl) refl)
          (returns refl) refl)
        (finishes refl) refl)
      flushes refl

sent_with_length_example :
    (sent_on whole (length_head ++ codes "hi")
      ≡ sent_on whole []
        ++ (head_bytes (request_line root) (request_fields root (Framing.WriteFraming.length 2))
            ++ codes "hi"))
    × (length (codes "hi") ≡ 2)
sent_with_length_example = sent_with_length whole {M = Unit} root [] 2 root_with_length length_sent
