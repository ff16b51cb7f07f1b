-- ===== src/Backend/Writer.antt =====
-- backend/src/writer.rs: the writer of request heads. The newtypes of backend/src/writer/ are left out:
-- what is returned is the body writer inside. On an error the sink is dropped.
pub mod Sends
pub mod Reads
use jrpxy.Prelude.{
  ℕ, Option, none, some, if◌then◌else◌, codes, not, keep_if, Result, map_err, ok, err,
}
use jrpxy.Util.Async.{AsyncWriteExt}
use jrpxy.Util.Sends.{Io, ◌>>◌}
use jrpxy.HttpMessage.Framing.{
  WriteFraming, length, chunked, strip_framing, is_framing_header, preserves_framing,
}
use jrpxy.HttpMessage.Message.{Request}
use jrpxy.HttpMessage.Heads.{crlf, write_fields, write_framing_field}
use jrpxy.Body.Writer.ContentLength
use jrpxy.Body.Writer.Chunked
use jrpxy.Body.Writer.Bodyless
use jrpxy.Backend.Error.{BackendError, write_error}

module _ {O E : Type 0} (sink : AsyncWriteExt O E) where
  -- `none` is a panic, by the `debug_assert` that the framing is not preserved.
  unfoldable pub write_request_to : Request → WriteFraming → Option (Io O E)
  unfolding preserves_framing
  write_request_to req framing =
      if preserves_framing framing
      then none
      else some (
          sink.write_all req.method
          >> sink.write_all (codes " ")
          >> sink.write_all req.path
          >> sink.write_all (codes " ")
          >> sink.write_all (codes "HTTP/1.1")
          >> sink.write_all crlf
          >> write_fields sink (keep_if (λ f. not (is_framing_header f.0)) req.headers.headers)
          >> write_framing_field sink framing
          >> sink.write_all crlf
          >> sink.flush)

-- A written head, and the body writer on the same sink.
unfoldable pub hand_over :
    {O E M B : Type 0} → (O → B) → Result Unit E × O → Result B (BackendError E M)
hand_over ready (ok _, o) = ok (ready o)
hand_over ready (err e, o) = err (write_error e)

unfoldable pub written :
    {O E M B : Type 0} → (O → B) → Option (Io O E) → O → Option (Result B (BackendError E M))
unfolding hand_over
written ready none o = none
written ready (some m) o = some (hand_over ready (m o))

module _ {O E M : Type 0} (sink : AsyncWriteExt O E) where
  unfoldable pub send_as_chunked :
      Request → O → Option (Result (Chunked.Ready O) (BackendError E M))
  unfolding written write_request_to
  send_as_chunked request writer =
      written Chunked.new (write_request_to sink request chunked) writer

  unfoldable pub send_as_content_length :
      Request → ℕ → O → Option (Result (ContentLength.Ready O) (BackendError E M))
  unfolding written write_request_to
  send_as_content_length request body_len writer =
      written (λ o. ContentLength.new o body_len) (write_request_to sink request (length body_len))
        writer

  unfoldable pub send_as_bodyless :
      Request → O → Option (Result (Bodyless.Ready O) (BackendError E M))
  unfolding written write_request_to
  send_as_bodyless request writer =
      written Bodyless.new (write_request_to sink request strip_framing) writer
