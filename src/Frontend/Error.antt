-- ===== src/Frontend/Error.antt =====
-- frontend/src/error.rs. The errors of the sink and the source, and those of httparse, are parameters.
use jrpxy.Prelude.{ℕ}
use jrpxy.HttpMessage.Header.{HeaderError}
use jrpxy.HttpMessage.Connection.{ConnectionTokenParserError}
use jrpxy.Body.Error.{BodyError}

pub data FrontendError (E M : Type 0) : Type 0 where
  write_error read_error : E → FrontendError E M
  body_write_error body_read_error : BodyError E → FrontendError E M
  first_read_eof unexpected_eof : FrontendError E M
  http_request_parse_error : M → FrontendError E M
  header_error : HeaderError → FrontendError E M
  invalid_connection_header : ConnectionTokenParserError → FrontendError E M
  max_head_len_exceeded : ℕ → ℕ → FrontendError E M
  transfer_encoding_on_http10 : FrontendError E M
