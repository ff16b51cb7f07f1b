-- ===== src/Proxy/Response/Answers.antt =====
-- proxy/src/lib.rs: which framing the client gets for a final response, and the writer of the body that goes with it.
use jrpxy.Prelude.{
  ℕ, Bool, true, false, ◌||◌, ◌==◌, if◌then◌else◌, Bytes, Result, ok, err, ◌>>=◌, ◌++◌, ◌≡◌, refl,
  sym, ap, ◌∙◌, err-ne-ok, ok-injective,
}
use jrpxy.Util.Async.{AsyncWriteExt}
use jrpxy.Util.Sends.{sent_on}
use jrpxy.HttpMessage.Framing.{
  WriteFraming, chunked, preserve_framing, strip_framing, preserves_framing,
}
use jrpxy.HttpMessage.Framing
use jrpxy.HttpMessage.Header.{framing}
use jrpxy.HttpMessage.Message.{Response}
use jrpxy.HttpMessage.Heads.{head_bytes}
use jrpxy.HttpMessage.Heads.Framed.{announced, Fits}
use jrpxy.Body.Writer.ContentLength
use jrpxy.Body.Writer.Chunked
use jrpxy.Body.Writer.Bodyless
use jrpxy.Body.Writer.Eof
use jrpxy.Frontend.Error.{FrontendError}
use jrpxy.Frontend.Writer.{write_response_to, hand_over}
use jrpxy.Frontend.Writer
use jrpxy.Frontend.Writer.Sends.{status_line, response_fields, write_response_to-Sends, by_choice}
use jrpxy.Backend.Reader.{BackendBodyReader, bodyless, cl, te, eof}
use jrpxy.Proxy.Options.{ProxyOptions}
use jrpxy.Proxy.Request.{ClientOptions, PendingFrontendResponse}
use jrpxy.Proxy.Response.{
  BodyReady, of_bodyless, of_cl, of_chunked, of_eof, stamped, is_http10, forward_head, send_unsized,
  send_as_chunked, send_as_content_length, send_as_bodyless_keep_framing, send_as_no_content,
  send_as_eof,
}

-- The framing for a client and a body: a length stays; a body of unknown length is chunked, or for a 1.0 client
-- ends with the connection; without a body, the response's own fields stay if they describe the answer to
-- another request.
abbrev pub chosen : {R : Type 0} → ClientOptions → ℕ → BackendBodyReader R → WriteFraming
chosen c code (te r b) = if is_http10 c.version then strip_framing else chunked
chosen c code (cl r slots b) = Framing.WriteFraming.length r.length
chosen c code (bodyless r slots b) =
    if c.is_head || code == 304 then preserve_framing else strip_framing
chosen c code (eof r slots) = if is_http10 c.version then strip_framing else chunked

-- The writer of the body.
abbrev pub body_for : {R O : Type 0} → ClientOptions → BackendBodyReader R → O → BodyReady O
body_for c (te r b) w =
    if is_http10 c.version then of_eof (Eof.new w) else of_chunked (Chunked.new w)
body_for c (cl r slots b) w = of_cl (ContentLength.new w r.length)
body_for c (bodyless r slots b) w = of_bodyless (Bodyless.new w)
body_for c (eof r slots) w =
    if is_http10 c.version then of_eof (Eof.new w) else of_chunked (Chunked.new w)

module _ {O E : Type 0} (sink : AsyncWriteExt O E) where
  -- The head with the framing `f` is on the sink, which has the writer `body`; and `f` is what the client reads.
  abbrev pub Answers : O → Response → BodyReady O → WriteFraming → (O → BodyReady O) → Type 0
  Answers o r ready f body =
      (w : O) × (ready ≡ body w)
      × (sent_on sink w ≡ sent_on sink o ++ head_bytes (status_line r) (response_fields r f))
      × (framing (record { headers = response_fields r f })
          ≡ (if preserves_framing f then framing r.headers else ok (announced f)))

if_same : {A : Type 0} (b : Bool) (a : A) → (if b then a else a) ≡ a
if_same true a = refl
if_same false a = refl

-- What the options and the writer come to.
abbrev onward :
    {A O E M : Type 0}
    → ProxyOptions
    → (A → BodyReady O)
    → Result A (FrontendError E M)
    → Result (ProxyOptions × BodyReady O) (FrontendError E M)
onward {A} {O} {E} {M} opts wrap p =
    let both : Result (ProxyOptions × A) (FrontendError E M) = (do b ← p; ok (opts, b)) in
    do (opt, writer) ← both; ok (opt, wrap writer)

module _ {O E M : Type 0} (sink : AsyncWriteExt O E) where
  handed :
      {A : Type 0} (mk : O → A) (wrap : A → BodyReady O) (opts options : ProxyOptions)
      (ready : BodyReady O) (p : Result Unit E × O)
      → onward opts wrap (hand_over {M = M} mk p) ≡ ok (options, ready)
      → (p.0 ≡ ok tt) × (ready ≡ wrap (mk p.1))
  unfolding hand_over
  handed mk wrap opts options ready (ok u, o) h = (
    refl,
    ap (λ (q : ProxyOptions × BodyReady O). q.1) (sym (ok-injective {E = FrontendError E M} h)),
  )
  handed mk wrap opts options ready (err e, o) h = absurd (err-ne-ok {E = FrontendError E M} h)

  answered :
      {A : Type 0} (mk : O → A) (wrap : A → BodyReady O) (opts options : ProxyOptions)
      (ready : BodyReady O) (o : O) (r : Response) (f : WriteFraming)
      → Fits f
      → onward opts wrap (hand_over {M = M} mk (write_response_to sink r f o)) ≡ ok (options, ready)
      → Answers sink o r ready f (λ w. wrap (mk w))
  answered mk wrap opts options ready o r f fits h =
      let (good, same) = handed mk wrap opts options ready (write_response_to sink r f o) h in
      (
        (write_response_to sink r f o).1,
        same,
        (write_response_to-Sends sink r f).whole o good,
        by_choice r f fits,
      )

  either :
      {q : ProxyOptions × BodyReady O} (o : O) (r : Response) (ready : BodyReady O) (b : Bool)
      (x y : Result (ProxyOptions × BodyReady O) (FrontendError E M)) (f g : WriteFraming)
      (m n : O → BodyReady O)
      → (x ≡ ok q → Answers sink o r ready f m)
      → (y ≡ ok q → Answers sink o r ready g n)
      → (if b then x else y) ≡ ok q
      → Answers sink o r ready (if b then f else g) (λ w. if b then m w else n w)
  either o r ready true x y f g m n first second h = first h
  either o r ready false x y f g m n first second h = second h

  unsized :
      (now : Bytes) (pending : PendingFrontendResponse O) (response : Response)
      (options : ProxyOptions) (ready : BodyReady O)
      → send_unsized {E = E} {M = M} sink now pending response ≡ ok (options, ready)
      → Answers sink pending.frontend_writer
          (stamped now pending response)
          ready
          (if is_http10 pending.client_options.version then strip_framing else chunked)
          (λ w.
            if is_http10 pending.client_options.version
            then of_eof (Eof.new w)
            else of_chunked (Chunked.new w))
  unfolding send_unsized send_as_eof send_as_chunked Writer.send_as_eof Writer.send_as_chunked
  unsized now pending response options ready h =
      let r = stamped now pending response in
      let o = pending.frontend_writer in
      either o r ready (is_http10 pending.client_options.version) _ _ strip_framing chunked
        (λ w. of_eof (Eof.new w)) (λ w. of_chunked (Chunked.new w))
        (answered Eof.new of_eof pending.options options ready o r strip_framing tt)
        (answered Chunked.new of_chunked pending.options options ready o r chunked tt) h

  pub forward_head-Answers :
      {R : Type 0} (now : Bytes) (pending : PendingFrontendResponse O) (response : Response)
      (reader : BackendBodyReader R) {options : ProxyOptions} {ready : BodyReady O}
      → Fits (chosen pending.client_options response.code reader)
      → forward_head {E = E} {M = M} sink now pending response reader ≡ ok (options, ready)
      → Answers sink pending.frontend_writer
          (stamped now pending response)
          ready
          (chosen pending.client_options response.code reader)
          (body_for pending.client_options reader)
  unfolding forward_head send_as_content_length send_as_bodyless_keep_framing send_as_no_content
      Writer.send_as_content_length Writer.send_as_bodyless_keep_framing Writer.send_as_no_content
  forward_head-Answers now pending response (te r b) {options} {ready} fits h =
      unsized now pending response options ready h
  forward_head-Answers now pending response (eof r slots) {options} {ready} fits h =
      unsized now pending response options ready h
  forward_head-Answers now pending response (cl r slots b) {options} {ready} fits h =
      answered (λ w. ContentLength.new w r.length) of_cl pending.options options ready
        pending.frontend_writer (stamped now pending response)
        (Framing.WriteFraming.length r.length) fits h
  forward_head-Answers now pending response (bodyless r slots b) {options} {ready} fits h =
      let s = stamped now pending response in
      let o = pending.frontend_writer in
      let same = pending.client_options.is_head || response.code == 304 in
      let (w, is, sent, reads) =
        either o s ready same _ _ preserve_framing strip_framing (λ w. of_bodyless (Bodyless.new w))
          (λ w. of_bodyless (Bodyless.new w))
          (answered Bodyless.new of_bodyless pending.options options ready o s preserve_framing tt)
          (answered Bodyless.new of_bodyless pending.options options ready o s strip_framing tt)
          h in
      (w, is ∙ if_same same (of_bodyless (Bodyless.new w)), sent, reads)
