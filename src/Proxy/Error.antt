-- ===== src/Proxy/Error.antt =====
-- proxy/src/error.rs: the errors of the frontend's side and of the options. The variant that wraps an
-- error of the frontend's own reader is raised by no code that is modelled, and left out.
use jrpxy.Prelude.{ℕ}
use jrpxy.HttpMessage.Connection.{ConnectionTokenParserError}

pub data ProxyFrontendError : Type 0 where
  connect_not_supported : ProxyFrontendError
  trace_not_supported : ProxyFrontendError
  options_not_supported : ProxyFrontendError
  invalid_connection_header : ConnectionTokenParserError → ProxyFrontendError
  malformed_request_target : ProxyFrontendError
  asterisk_form_not_allowed : ProxyFrontendError
  authority_form_not_allowed : ProxyFrontendError
  missing_host : ProxyFrontendError
  multiple_hosts : ProxyFrontendError

pub data ProxyOptionsError : Type 0 where
  empty_received_by : ProxyOptionsError
  illegal_received_by_byte : ℕ → ProxyOptionsError
