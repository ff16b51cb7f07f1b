-- ===== src/Tests/Response.antt =====
-- proxy/src/lib.rs: a response without framing fields, for a client of version 1.1.
use jrpxy.Prelude.{[], ◌++◌, ◌≡◌, refl, Bytes, false, ok, codes, eq_ignore_ascii_case, to_decimal}
use jrpxy.Tests.Sink.{whole}
use jrpxy.HttpMessage.Version.{http11}
use jrpxy.HttpMessage.Framing.{is_framing_header, preserves_framing}
use jrpxy.HttpMessage.Header.{push_raw, get_header}
use jrpxy.HttpMessage.Message.{Response}
use jrpxy.HttpMessage.Heads.{write_fields, write_framing_field}
use jrpxy.Body.Writer.Chunked
use jrpxy.Frontend.Writer.{write_response_to, hand_over}
use jrpxy.Frontend.Writer
use jrpxy.Backend.Reader.{BackendBodyReader, eof}
use jrpxy.Proxy.Options.{default}
use jrpxy.Proxy.Request.{PendingFrontendResponse}
use jrpxy.Proxy.Fields.{insert_proxy_headers, insert_date_header_if_absent}
use jrpxy.Proxy.Response.{of_chunked, stamped, forward_head, send_unsized, send_as_chunked}
use jrpxy.Proxy.Response.Forwarded.{Forwarded, forward_head-Forwarded}

abbrev waiting : PendingFrontendResponse Bytes
waiting = record {
  frontend_writer = [];
  options = default;
  client_options = record { is_head = false; version = http11 };
}

abbrev bare : Response
bare = record {
  version = http11;
  code = 200;
  reason = codes "OK";
  headers = record { headers = [] };
}

abbrev until_close : BackendBodyReader Unit
until_close =
    eof
      (record {
        reader = record { io = tt; buffer = record { buffer = []; position = 0 } };
        eof = false;
      })
      (record { slot_count = 16 })

abbrev now : Bytes
now = codes "Sun, 06 Nov 1994 08:49:37 GMT"

abbrev head_sent : Bytes
head_sent =
    codes "HTTP/1.1 200 OK\r\nVia: 1.1 jrpxy\r\nDate: Sun, 06 Nov 1994 08:49:37 GMT\r\n"
    ++ codes "transfer-encoding: chunked\r\n\r\n"

forwards :
    forward_head {E = Unit} {M = Unit} whole now waiting bare until_close
    ≡ ok (default, of_chunked (Chunked.new head_sent))
unfolding forward_head send_unsized send_as_chunked Writer.send_as_chunked write_response_to
    hand_over stamped insert_proxy_headers insert_date_header_if_absent get_header push_raw
    write_fields write_framing_field is_framing_header preserves_framing eq_ignore_ascii_case
    to_decimal
forwards = refl

forward_head-Forwarded_example :
    Forwarded whole now waiting bare until_close (of_chunked (Chunked.new head_sent))
forward_head-Forwarded_example =
    forward_head-Forwarded {E = Unit} whole {M = Unit} now waiting bare until_close tt forwards
