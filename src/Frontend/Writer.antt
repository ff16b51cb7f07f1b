-- ===== src/Frontend/Writer.antt =====
-- frontend/src/writer.rs: the writer of response heads. The newtypes of frontend/src/writer/ are left out:
-- what is returned is the body writer inside. On an error the sink is dropped.
pub mod Sends
use jrpxy.Prelude.{ℕ, codes, not, ◌||◌, List, keep_if, Result, ok, err, to_decimal}
use jrpxy.Util.Async.{AsyncWriteExt}
use jrpxy.Util.Sends.{Io, ◌>>◌}
use jrpxy.HttpMessage.Framing.{
  WriteFraming, length, chunked, preserve_framing, strip_framing, is_framing_header,
  preserves_framing,
}
use jrpxy.HttpMessage.Header.{Field}
use jrpxy.HttpMessage.Message.{Response}
use jrpxy.HttpMessage.Heads.{crlf, write_fields, write_framing_field}
use jrpxy.Body.Writer.ContentLength
use jrpxy.Body.Writer.Chunked
use jrpxy.Body.Writer.Bodyless
use jrpxy.Body.Writer.Eof
use jrpxy.Frontend.Error.{FrontendError, write_error}

-- The fields that `write_response_to` lets through.
abbrev pub response_filter : WriteFraming → List Field → List Field
response_filter framing fs =
    keep_if (λ f. preserves_framing framing || not (is_framing_header f.0)) fs

module _ {O E : Type 0} (sink : AsyncWriteExt O E) where
  unfoldable pub write_response_to : Response → WriteFraming → Io O E
  write_response_to res framing =
      sink.write_all (codes "HTTP/1.1")
      >> sink.write_all (codes " ")
      >> sink.write_all (to_decimal res.code)
      >> sink.write_all (codes " ")
      >> sink.write_all res.reason
      >> sink.write_all crlf
      >> write_fields sink (response_filter framing res.headers.headers)
      >> write_framing_field sink framing
      >> sink.write_all crlf
      >> sink.flush

-- A written head, and the body writer on the same sink.
unfoldable pub hand_over :
    {O E M B : Type 0} → (O → B) → Result Unit E × O → Result B (FrontendError E M)
hand_over ready (ok _, o) = ok (ready o)
hand_over ready (err e, o) = err (write_error e)

module _ {O E M : Type 0} (sink : AsyncWriteExt O E) where
  unfoldable pub send_as_eof : Response → O → Result (Eof.Ready O) (FrontendError E M)
  unfolding hand_over write_response_to
  send_as_eof response writer =
      hand_over Eof.new (write_response_to sink response strip_framing writer)

  unfoldable pub send_as_chunked : Response → O → Result (Chunked.Ready O) (FrontendError E M)
  unfolding hand_over write_response_to
  send_as_chunked response writer =
      hand_over Chunked.new (write_response_to sink response chunked writer)

  unfoldable pub send_as_content_length :
      Response → ℕ → O → Result (ContentLength.Ready O) (FrontendError E M)
  unfolding hand_over write_response_to
  send_as_content_length response body_len writer =
      hand_over (λ o. ContentLength.new o body_len)
        (write_response_to sink response (length body_len) writer)

  unfoldable pub send_as_bodyless_keep_framing :
      Response → O → Result (Bodyless.Ready O) (FrontendError E M)
  unfolding hand_over write_response_to
  send_as_bodyless_keep_framing response writer =
      hand_over Bodyless.new (write_response_to sink response preserve_framing writer)

  unfoldable pub send_as_no_content : Response → O → Result (Bodyless.Ready O) (FrontendError E M)
  unfolding hand_over write_response_to
  send_as_no_content response writer =
      hand_over Bodyless.new (write_response_to sink response strip_framing writer)
