-- ===== src/Backend/Writer/Sends.antt =====
-- backend/src/writer.rs: what a request with its body is on the wire.
use jrpxy.Prelude.{
  false, some, some-injective, ℕ, List, Bytes, codes, ◌++◌, ◌≡◌, refl, sym, ap, ◌∙◌, append_assoc,
  append_regroup, append-nil, Result, ok, err, length, ok-injective, err-ne-ok, subst,
}
use jrpxy.Util.Async.{AsyncWriteExt}
use jrpxy.Util.Sends.{
  Io, Delivers, Sends-Delivers, Sends, sent_on, write_all-Sends, flush-Sends, then-Sends,
}
use jrpxy.HttpMessage.Framing.{WriteFraming, chunked, preserves_framing}
use jrpxy.HttpMessage.Framing
use jrpxy.HttpMessage.Header.{Field, Headers}
use jrpxy.HttpMessage.Message.{Request}
use jrpxy.HttpMessage.Heads.{
  crlf, head_bytes, field_lines-append, framing_field, write_fields-Sends,
  write_framing_field-Sends, as_Sends,
}
use jrpxy.HttpMessage.Heads.Framed.{unframed}
use jrpxy.Body.Writer.ContentLength
use jrpxy.Body.Writer.ContentLength.Moves
use jrpxy.Body.Writer.ContentLength.Sends
use jrpxy.Body.Writer.Chunked
use jrpxy.Body.Writer.Chunked.Moves.{encode, concat, in_ready, in_finish}
use jrpxy.Body.Writer.Chunked.Sends.{Run, chunked_body}
use jrpxy.Backend.Error.{BackendError}
use jrpxy.Backend.Writer.{
  write_request_to, send_as_content_length, send_as_chunked, hand_over, written,
}

-- `request-line` of RFC 9112 section 3, without its CRLF.
abbrev pub request_line : Request → Bytes
request_line r = r.method ++ (codes " " ++ (r.path ++ codes " HTTP/1.1"))

-- The fields that are written.
abbrev pub request_fields : Request → WriteFraming → List Field
request_fields r framing = unframed r.headers.headers ++ framing_field framing

module _ {O E : Type 0} (sink : AsyncWriteExt O E) where
  -- A request is written, unless its framing is to be preserved.
  pub write_request_to-Sends :
      (r : Request) (framing : WriteFraming)
      → preserves_framing framing ≡ false
      → (m : Io O E) × (write_request_to sink r framing ≡ some m)
        × Sends sink m (head_bytes (request_line r) (request_fields r framing))
  unfolding write_request_to
  write_request_to-Sends r framing replaced =
      let w = write_all-Sends sink in
      let line =
        then-Sends sink
          (then-Sends sink
            (then-Sends sink
              (then-Sends sink (then-Sends sink (w r.method) (w (codes " "))) (w r.path))
              (w (codes " ")))
            (w (codes "HTTP/1.1")))
          (w crlf) in
      (
        _,
        rw (replaced, write_request_to) refl,
        as_Sends sink
            (rw (field_lines-append (unframed r.headers.headers) (framing_field framing))
              (simp (append_assoc, append-nil)))
            (then-Sends sink
              (then-Sends sink
                (then-Sends sink
                  (then-Sends sink line (write_fields-Sends sink (unframed r.headers.headers)))
                  (write_framing_field-Sends sink framing))
                (w crlf))
              (flush-Sends sink)),
      )

  -- A request head on the wire is the request line, the fields that do not frame, the field of the chosen
  -- framing, if any, and the empty line; the framing is not to be preserved. That is sent if the write succeeds,
  -- and otherwise a front part of it.
  pub write_request_to-Delivers :
      (r : Request) (framing : WriteFraming) (o : O)
      → preserves_framing framing ≡ false
      → (m : Io O E) × (write_request_to sink r framing ≡ some m)
        × Delivers sink o (head_bytes (request_line r) (request_fields r framing)) (m o)
  write_request_to-Delivers r framing o replaced =
      let (m, e, head) = write_request_to-Sends r framing replaced in
      (m, e, Sends-Delivers sink head o)

  handed :
      {M B : Type 0} (ready : O → B) (p : Result Unit E × O) (b : B)
      → hand_over {M = M} ready p ≡ ok b
      → (p.0 ≡ ok tt) × (ready p.1 ≡ b)
  unfolding hand_over
  handed {M} ready (ok u, o) b h = (refl, ok-injective {E = BackendError E M} h)
  handed {M} ready (err e, o) b h = absurd (err-ne-ok {E = BackendError E M} h)

  -- A request whose head and body have been written with a declared length: the sink has been sent the head
  -- and behind it the body that the writes took, whose length is the declared one.
  pub sent_with_length :
      {M : Type 0} (r : Request) (o : O) (total : ℕ) {ready : ContentLength.Ready O}
      {f : ContentLength.Finish O} {out : Bytes}
      → send_as_content_length {M = M} sink r total o ≡ some (ok ready)
      → ContentLength.Sends.Run sink.base
          (ContentLength.Moves.in_ready ready)
          (ContentLength.Moves.in_finish f)
          out
      → (sent_on sink f.writer
          ≡ sent_on sink o
            ++ (head_bytes (request_line r) (request_fields r (Framing.WriteFraming.length total))
                ++ out))
        × (length out ≡ total)
  unfolding send_as_content_length written
  sent_with_length {M} r o total {ready} {f} {out} h run =
      let (m, e, head) = write_request_to-Sends r (Framing.WriteFraming.length total) refl in
      let p = m o in
      let (good, same) =
        handed {M = M} (λ x. ContentLength.new x total) p ready
          (some-injective _ _ (
            subst (λ x. written {M = M} (λ w. ContentLength.new w total) x o ≡ some (ok ready)) e
              h)) in
      let (body, le, all) = ContentLength.Sends.sent_body sink.base p.1 total (
        subst
          (λ x.
            ContentLength.Sends.Run sink.base (ContentLength.Moves.in_ready x)
              (ContentLength.Moves.in_finish f) out)
          (sym same) run) in
      (
        body
            ∙ ap (λ (x : Bytes). x ++ out) (head.whole o good)
            ∙ append_assoc (sent_on sink o) _ out,
        all f refl,
      )

  -- A request whose head and body have been written with chunked coding: the sink has been sent the head, the
  -- chunks, which together are the body that the writes took, and the last chunk with the trailer fields.
  pub sent_chunked :
      {M : Type 0} (r : Request) (o w : O) (trailers : Headers) {ready : Chunked.Ready O}
      {f : Chunked.Finish O} {out : Bytes}
      → send_as_chunked {M = M} sink r o ≡ some (ok ready)
      → Run sink.base trailers (in_ready ready) (in_finish f) out
      → Chunked.into_writer {E = E} f ≡ ok w
      → (chunks : List Bytes) × (concat chunks ≡ out)
        × (sent_on sink w
            ≡ sent_on sink o
              ++ (head_bytes (request_line r) (request_fields r chunked)
                  ++ (encode chunks ++ Chunked.terminal_bytes trailers)))
  unfolding send_as_chunked written
  sent_chunked {M} r o w trailers {ready} {f} {out} h run done =
      let (m, e, head) = write_request_to-Sends r chunked refl in
      let p = m o in
      let (good, same) =
        handed {M = M} Chunked.new p ready (
          some-injective _ _
            (subst (λ x. written {M = M} Chunked.new x o ≡ some (ok ready)) e h)) in
      let (chunks, body, wire) =
        chunked_body sink.base trailers p.1 w
          (subst (λ x. Run sink.base trailers (in_ready x) (in_finish f) out) (sym same) run)
          done in
      (
        chunks,
        body,
        wire
            ∙ ap (λ (x : Bytes). (x ++ encode chunks) ++ Chunked.terminal_bytes trailers)
                (head.whole o good)
            ∙ append_regroup (sent_on sink o) _ (encode chunks) (Chunked.terminal_bytes trailers),
      )
