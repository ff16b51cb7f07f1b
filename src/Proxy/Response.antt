-- ===== src/Proxy/Response.antt =====
-- proxy/src/lib.rs: `PendingFrontendResponse`, and the choice of the response's framing in `forward_response_head`. The
-- errors are those of the frontend, which the source wraps once more; `now` is the text of the present time. What
-- the body readers and the request's side have beyond that choice passes through, and is left out.
pub mod Answers
pub mod Final
pub mod Forwarded
use jrpxy.Prelude.{
  ℕ, Bool, true, false, ◌||◌, ◌==◌, if◌then◌else◌, Bytes, Result, ok, err, ◌>>=◌, ◌>>◌,
}
use jrpxy.Util.Async.{AsyncWriteExt}
use jrpxy.HttpMessage.Version.{HttpVersion, http10, http11}
use jrpxy.HttpMessage.Message.{Response}
use jrpxy.Body.Writer.ContentLength
use jrpxy.Body.Writer.Chunked
use jrpxy.Body.Writer.Bodyless
use jrpxy.Body.Writer.Eof
use jrpxy.Frontend.Error.{FrontendError}
use jrpxy.Frontend.Writer
use jrpxy.Backend.Reader.{BackendBodyReader, bodyless, cl, te, eof}
use jrpxy.Proxy.Options.{ProxyOptions}
use jrpxy.Proxy.Request.{PendingFrontendResponse}
use jrpxy.Proxy.Fields.{insert_proxy_headers, insert_date_header_if_absent}

-- frontend/src/writer/body.rs: `Ready`.
pub data BodyReady (O : Type 0) : Type 0 where
  of_bodyless : Bodyless.Ready O → BodyReady O
  of_cl : ContentLength.Ready O → BodyReady O
  of_chunked : Chunked.Ready O → BodyReady O
  of_eof : Eof.Ready O → BodyReady O

-- The fields that each `send_as_…` adds.
unfoldable pub stamped : {W : Type 0} → Bytes → PendingFrontendResponse W → Response → Response
unfolding insert_proxy_headers insert_date_header_if_absent
stamped now pending response = record response {
  headers =
      insert_date_header_if_absent now
        (insert_proxy_headers response.version pending.options.received_by response.headers);
}

abbrev is_http10 : HttpVersion → Bool
is_http10 http10 = true
is_http10 http11 = false

module _ {O E M : Type 0} (sink : AsyncWriteExt O E) (now : Bytes) where
  unfoldable pub send_as_chunked :
      PendingFrontendResponse O
      → Response
      → Result (ProxyOptions × Chunked.Ready O) (FrontendError E M)
  send_as_chunked pending response = do
    body_writer ← Writer.send_as_chunked sink (stamped now pending response) pending.frontend_writer
    ok (pending.options, body_writer)

  unfoldable pub send_as_content_length :
      PendingFrontendResponse O
      → Response
      → ℕ
      → Result (ProxyOptions × ContentLength.Ready O) (FrontendError E M)
  send_as_content_length pending response body_len = do
    body_writer ←
        Writer.send_as_content_length sink (stamped now pending response) body_len
          pending.frontend_writer
    ok (pending.options, body_writer)

  unfoldable pub send_as_bodyless_keep_framing :
      PendingFrontendResponse O
      → Response
      → Result (ProxyOptions × Bodyless.Ready O) (FrontendError E M)
  send_as_bodyless_keep_framing pending response = do
    body_writer ←
        Writer.send_as_bodyless_keep_framing sink (stamped now pending response)
          pending.frontend_writer
    ok (pending.options, body_writer)

  unfoldable pub send_as_no_content :
      PendingFrontendResponse O
      → Response
      → Result (ProxyOptions × Bodyless.Ready O) (FrontendError E M)
  send_as_no_content pending response = do
    body_writer ←
        Writer.send_as_no_content sink (stamped now pending response) pending.frontend_writer
    ok (pending.options, body_writer)

  unfoldable pub send_as_eof :
      PendingFrontendResponse O → Response → Result (ProxyOptions × Eof.Ready O) (FrontendError E M)
  send_as_eof pending response = do
    body_writer ← Writer.send_as_eof sink (stamped now pending response) pending.frontend_writer
    ok (pending.options, body_writer)

  -- A body whose length is not known beforehand.
  unfoldable pub send_unsized :
      PendingFrontendResponse O → Response → Result (ProxyOptions × BodyReady O) (FrontendError E M)
  unfolding send_as_eof send_as_chunked
  send_unsized pending response =
      if is_http10 pending.client_options.version
      then (do (opt, writer) ← send_as_eof pending response; ok (opt, of_eof writer))
      else (do (opt, writer) ← send_as_chunked pending response; ok (opt, of_chunked writer))

  -- The `match` of `forward_response_head`.
  unfoldable pub forward_head :
      {R : Type 0}
      → PendingFrontendResponse O
      → Response
      → BackendBodyReader R
      → Result (ProxyOptions × BodyReady O) (FrontendError E M)
  unfolding send_unsized send_as_content_length send_as_bodyless_keep_framing send_as_no_content
  forward_head pending response (te r b) = send_unsized pending response
  forward_head pending response (cl r slots b) = do
    (opt, writer) ← send_as_content_length pending response r.length
    ok (opt, of_cl writer)
  forward_head pending response (bodyless r slots b) =
      if pending.client_options.is_head || response.code == 304
      then (do
        (opt, writer) ← send_as_bodyless_keep_framing pending response
        ok (opt, of_bodyless writer))
      else (do (opt, writer) ← send_as_no_content pending response; ok (opt, of_bodyless writer))
  forward_head pending response (eof r slots) = send_unsized pending response
