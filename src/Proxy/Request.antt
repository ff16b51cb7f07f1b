-- ===== src/Proxy/Request.antt =====
-- proxy/src/lib.rs: `FrontendProxyRequest`, from a request of the frontend to the one for the backend.
-- The body reader and the frontend's writer pass through, and their types are arguments.
pub mod Forwards
use jrpxy.Prelude.{
  ℕ, true, false, Bytes, Bool, ◌==◌, ◌&&◌, ltb, if◌then◌else◌, List, [], ◌∷◌, Result, ok, err,
  codes, length, bytes_eq,
}
use jrpxy.HttpMessage.Version.{HttpVersion, http10, http11}
use jrpxy.HttpMessage.Header.{Headers, get_header}
use jrpxy.HttpMessage.Message.{Request}
use jrpxy.HttpMessage.Connection.{ConnectionTokenParserError, connection_tokens}
use jrpxy.HttpMessage.Connection.Persistent.{collect}
use jrpxy.Proxy.Error.{
  ProxyFrontendError, connect_not_supported, trace_not_supported, options_not_supported,
  invalid_connection_header, missing_host, multiple_hosts,
}
use jrpxy.Proxy.Target.{normalize}
use jrpxy.Proxy.Fields.{strip_hop_by_hop_headers, insert_proxy_headers}
use jrpxy.Proxy.Options.{ProxyOptions}

-- frontend/src/reader.rs
pub record FrontendRequest (R : Type 0) : Type 0 where
  pub req : Request
  pub reader : R

pub record ClientOptions : Type 0 where
  pub is_head : Bool
  pub version : HttpVersion

pub record PendingFrontendResponse (W : Type 0) : Type 0 where
  pub frontend_writer : W
  pub options : ProxyOptions
  pub client_options : ClientOptions

pub record FrontendRequestError (R W : Type 0) : Type 0 where
  pub request : FrontendRequest R
  pub pending : PendingFrontendResponse W
  pub error : ProxyFrontendError

pub record FrontendProxyRequest (R W : Type 0) : Type 0 where
  pub frontend : FrontendRequest R
  pub original : Request
  pub pending : PendingFrontendResponse W

pub record BackendProxyRequest (R W : Type 0) : Type 0 where
  pub request : Request
  pub body_reader : R
  pub pending : PendingFrontendResponse W

unfoldable pub get_connection_tokens : Headers → Result (List Bytes) ConnectionTokenParserError
get_connection_tokens headers = collect (connection_tokens headers)

-- `version == Http11`
pub is_http11 : HttpVersion → Bool
is_http11 http11 = true
is_http11 http10 = false

module _ {R W : Type 0} where
  unfoldable pub new :
      FrontendRequest R
      → PendingFrontendResponse W
      → List Bytes
      → Result (FrontendProxyRequest R W) (FrontendRequestError R W)
  new frontend pending tokens =
      let (outcome, req) = normalize frontend.req in
      elim outcome [
        | err e ↦
            err (record { request = record frontend { req = req }; pending = pending; error = e })
        | ok _ ↦ ok (record {
          frontend = record frontend {
            req = record req { headers = strip_hop_by_hop_headers tokens req.headers };
          };
          original = frontend.req;
          pending = pending;
        })
      ]

  -- What follows the connection tokens in `from_request`.
  pub checked :
      FrontendRequest R
      → PendingFrontendResponse W
      → List Bytes
      → Result (FrontendProxyRequest R W) (FrontendRequestError R W)
  unfolding new is_http11
  checked request pending tokens =
      let refuse : ProxyFrontendError
          → Result (FrontendProxyRequest R W) (FrontendRequestError R W) =
        λ e. err (record { request = request; pending = pending; error = e }) in
      let method = request.req.method in
      let host_count = length (get_header request.req.headers (codes "host")) in
      if bytes_eq method (codes "CONNECT")
      then refuse connect_not_supported
      else if bytes_eq method (codes "TRACE")
      then refuse trace_not_supported
      else if bytes_eq method (codes "OPTIONS")
      then refuse options_not_supported
      else if ltb 1 host_count
      then refuse multiple_hosts
      else if is_http11 request.req.version && host_count == 0
      then refuse missing_host
      else new request pending tokens

  unfoldable pub from_request :
      FrontendRequest R
      → W
      → ProxyOptions
      → Result (FrontendProxyRequest R W) (FrontendRequestError R W)
  unfolding checked
  from_request request writer options =
      let pending : PendingFrontendResponse W = record {
        frontend_writer = writer;
        options = options;
        client_options = record {
          is_head = bytes_eq request.req.method (codes "HEAD");
          version = request.req.version;
        };
      } in
      elim (get_connection_tokens request.req.headers) [
        | err e ↦
            err
              (record { request = request; pending = pending; error = invalid_connection_header e })
        | ok tokens ↦ checked request pending tokens
      ]

  unfoldable pub into_backend_request : FrontendProxyRequest R W → BackendProxyRequest R W
  into_backend_request p = record {
    request = record p.frontend.req {
      headers =
          insert_proxy_headers p.frontend.req.version p.pending.options.received_by
            p.frontend.req.headers;
    };
    body_reader = p.frontend.reader;
    pending = p.pending;
  }
