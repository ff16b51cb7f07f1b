-- ===== src/Tests/Connections.antt =====
-- frontend/src/reader.rs, backend/src/reader.rs and body/src/reader/chunked.rs, over a scripted source.
use jrpxy.Prelude.{
  eq_ignore_ascii_case, parse_u64, is_ascii_digit, ℕ, ◌≡◌, refl, arith, [], ◌∷◌, ◌++◌, Bytes, true,
  some, none, ok, codes, length,
}
use jrpxy.Tests.Script.{Script, script}
use jrpxy.Tests.HttpParse.{toy}
use jrpxy.Util.Parse.{trim_ows, is_ows}
use jrpxy.Util.Async.{ready}
use jrpxy.Util.IoBuffer.{BytesReader, as_bytes, get_u8, split_to, ensure, extend, do_fill}
use jrpxy.Util.IoBuffer.Fills.{IsValid}
use jrpxy.HttpMessage.Version.{http11}
use jrpxy.HttpMessage.Framing.{ParsedFraming, is_no_framing}
use jrpxy.HttpMessage.Header.{framing, get_header}
use jrpxy.HttpMessage.Connection.{connection_is_persistent, connection_tokens}
use jrpxy.HttpMessage.Message.{Request, Response, is_informational}
use jrpxy.HttpMessage.Parse.{ParseSlots}
use jrpxy.HttpMessage.Parse.Cuts.{IsRequestHead}
use jrpxy.HttpMessage.Parse.Head.{Ended}
use jrpxy.Body.Reader.{poll_ensure}
use jrpxy.Body.Reader.Eof
use jrpxy.Body.Reader.Chunked.{
  ChunkDataReader, ChunkHeadReader, reading_size, ChunkBodyState, in_body, done, poll_chunk,
  poll_in_body, poll_need_cr, poll_need_lf, chunk_data, chunk_footer, awaited, finish_chunk,
  new_head,
}
use jrpxy.Body.Reader.Chunked.Stream.{Reads, start, poll, chunk_data_flow}
use jrpxy.Frontend.Reader.{head, open_body, FrontendReader}
use jrpxy.Body.Reader.ContentLength
use jrpxy.Body.Reader.Chunked.Heads.{Ends}
use jrpxy.Body.Reader.Chunked.Polls.{poll_read_chunk}
use jrpxy.Body.Reader.Chunked.Sizes.{poll_read_chunk-Ends}
use jrpxy.Frontend.Reader.{cl}
use jrpxy.Frontend.Reader.Bodies.{poll_drain}
use jrpxy.Frontend.Reader.Bodies.Recycles.{Recycles, poll_drain-Recycles}
use jrpxy.Frontend.Reader.Decides.{read-Reads, head-Ended}
use jrpxy.Frontend.Reader.Decides
use jrpxy.Backend.Reader.Decides.{IsSane, Accepts, open_response-Accepts}
use jrpxy.Backend.Reader.{
  BackendReader, ResponseStream, final, eof, open_response, check_framing, open_stream, body_reader,
  code_has_body,
}

abbrev slots : ParseSlots
slots = record { slot_count = 16 }

-- Four bytes are in the buffer, and five are still to come.
abbrev half : BytesReader Script
half = record {
  io = record { got = codes "GET "; chunks = codes "/ abc" ∷ [] };
  buffer = record { buffer = codes "GET "; position = 4 };
}

half-IsValid : IsValid half.buffer
half-IsValid = record { within = omega arith; addressable = omega arith }

abbrev front : FrontendReader Script
front = record { reader = half; parse_slots = slots }

read-Reads_example : Decides.Reads script toy 64 64 front
read-Reads_example = read-Reads script toy 64 64 front half-IsValid

head-Ended_example : Ended script (IsRequestHead toy slots) half (head script toy 64 front)
head-Ended_example = head-Ended script toy 64 front half-IsValid

abbrev back : BackendReader Script
back = record { reader = half; parse_slots = slots }

abbrev plain : Response
plain = record {
  version = http11;
  code = 200;
  reason = codes "OK";
  headers = record { headers = [] };
}

abbrev plain_stream : ResponseStream Script
plain_stream = final plain (eof (Eof.new half) slots)

plain_opens : open_response {E = Unit} {P = Unit} true 64 64 back plain ≡ ok plain_stream
unfolding open_response check_framing open_stream body_reader code_has_body is_informational
    is_no_framing framing get_header connection_is_persistent connection_tokens Eof.new
plain_opens = refl

open_response-Accepts_example :
    (f : ParsedFraming) × IsSane plain f × Accepts true 64 64 back plain f plain_stream
open_response-Accepts_example =
    open_response-Accepts {E = Unit} {P = Unit} true 64 64 back plain plain_stream plain_opens

abbrev size_to_read : ChunkHeadReader Script
size_to_read = record {
  reader = half;
  parse_slots = slots;
  max_chunk_header_length = 8;
  max_trailer_length = 8;
  state = reading_size;
}

poll_read_chunk-Ends_example : Ends script toy half (poll_read_chunk script toy 20 size_to_read)
poll_read_chunk-Ends_example =
    poll_read_chunk-Ends script toy 20 size_to_read half-IsValid (omega arith)

-- A request with a body of three bytes, which are there already.
abbrev posts : Request
posts = record {
  method = codes "POST";
  path = codes "/";
  version = http11;
  headers = record { headers = (codes "Content-Length", codes "3") ∷ [] };
}

posts_length : framing posts.headers ≡ ok (ParsedFraming.length 3)
unfolding framing get_header eq_ignore_ascii_case trim_ows is_ows is_ascii_digit parse_u64
posts_length = refl

posts_opens :
    open_body {E = Unit} {P = Unit} 64 64 front posts
    ≡ ok (cl (record { length = 3; offset = 0; reader = half }) slots true)
unfolding open_body framing get_header connection_is_persistent connection_tokens ContentLength.new
    eq_ignore_ascii_case trim_ows is_ows is_ascii_digit parse_u64
posts_opens = refl

poll_drain-Recycles_example :
    Recycles {P = Unit} script front posts 3
      (poll_drain script toy 5 (cl (record { length = 3; offset = 0; reader = half }) slots true))
poll_drain-Recycles_example =
    poll_drain-Recycles script toy 64 64 5 3 front posts half-IsValid posts_opens posts_length
      (omega arith)

-- A chunk of three bytes, with CRLF and a byte more behind it, and what the reader holds as it is read.
abbrev holding : Bytes → BytesReader Script
holding bs = record {
  io = record { got = codes "abc\r\n0"; chunks = [] };
  buffer = record { buffer = bs; position = length bs };
}

abbrev chunk_of : Bytes → ℕ → ChunkBodyState → ChunkDataReader Script
chunk_of bs left s = record {
  reader = holding bs;
  parse_slots = slots;
  max_chunk_header_length = 64;
  max_trailer_length = 64;
  size = 3;
  extensions = codes "3\r\n";
  remaining = left;
  state = s;
}

abbrev chunk_at_start : ChunkDataReader Script
chunk_at_start = chunk_of (codes "abc\r\n0") 3 in_body

abbrev chunk_at_foot : ChunkDataReader Script
chunk_at_foot = chunk_of (codes "\r\n0") 0 in_body

abbrev chunk_at_end : ChunkDataReader Script
chunk_at_end = chunk_of (codes "0") 0 done

polls_data :
    poll_chunk {E = Unit} script 16 chunk_at_start
    ≡ some (ready (ok (some (codes "abc"))), chunk_at_foot)
unfolding poll_chunk poll_in_body poll_need_cr poll_need_lf chunk_data chunk_footer awaited
    poll_ensure ensure extend do_fill split_to get_u8
polls_data = refl

polls_foot : poll_chunk {E = Unit} script 16 chunk_at_foot ≡ some (ready (ok none), chunk_at_end)
unfolding poll_chunk poll_in_body poll_need_cr poll_need_lf chunk_data chunk_footer awaited
    poll_ensure ensure extend do_fill split_to get_u8
polls_foot = refl

chunk-Reads : Reads {E = Unit} script chunk_at_start chunk_at_end (codes "abc")
chunk-Reads = poll 16 (poll 16 start polls_data tt refl) polls_foot tt refl

finishes_chunk : finish_chunk chunk_at_end ≡ some (new_head (holding (codes "0")) slots 64 64)
unfolding finish_chunk
finishes_chunk = refl

chunk_data_flow_example :
    (length (codes "abc") ≡ 3)
    × (arrived : Bytes) × (codes "abc\r\n0" ≡ codes "abc\r\n0" ++ arrived)
    × (as_bytes chunk_at_start.reader ++ arrived
        ≡ (codes "abc" ++ codes "\r\n") ++ as_bytes (holding (codes "0")))
unfolding new_head
chunk_data_flow_example =
    chunk_data_flow script 3 chunk_at_start chunk_at_end
      (record { within = omega arith; addressable = omega arith }) refl refl chunk-Reads
      finishes_chunk
