-- ===== src/Backend/Error.antt =====
-- backend/src/error.rs. The errors of the sink and the source, and those of httparse, are parameters.
use jrpxy.Prelude.{ℕ}
use jrpxy.HttpMessage.Header.{HeaderError}
use jrpxy.HttpMessage.Connection.{ConnectionTokenParserError}
use jrpxy.Body.Error.{BodyError}

pub data BackendError (E M : Type 0) : Type 0 where
  write_error read_error : E → BackendError E M
  body_write_error body_read_error : BodyError E → BackendError E M
  first_read_eof unexpected_eof : BackendError E M
  http_response_parse_error : M → BackendError E M
  header_error : HeaderError → BackendError E M
  invalid_connection_header : ConnectionTokenParserError → BackendError E M
  http_switching_protocols_unsupported http_processing_unsupported : BackendError E M
  max_head_len_exceeded : ℕ → ℕ → BackendError E M
  framing_headers_on_informational_response : BackendError E M
  framing_headers_on_204_no_content_response : BackendError E M
  transfer_encoding_on_http10_server : BackendError E M
