-- ===== src/Proxy/Response/Forwarded.antt =====
-- proxy/src/lib.rs: what the client has of a final response that has been forwarded, described by its fields, by
-- the framing that it reads and by the writer of the body.
use jrpxy.Prelude.{
  ℕ, ◌≤◌, u64_max, Bool, true, false, ◌||◌, ◌==◌, if◌then◌else◌, List, ◌++◌, Bytes, ok, ◌≡◌, ◌≢◌,
  refl, sym, subst, ap, ◌∙◌, arith, inl, inr, ◌⊎◌,
}
use jrpxy.Util.Async.{AsyncWriteExt}
use jrpxy.Util.Sends.{sent_on}
use jrpxy.HttpMessage.Version.{HttpVersion, http10, http11}
use jrpxy.HttpMessage.Framing.{
  ParsedFraming, chunked, no_framing, preserve_framing, strip_framing, preserves_framing,
}
use jrpxy.HttpMessage.Header.{Field, framing}
use jrpxy.HttpMessage.Message.{Response}
use jrpxy.HttpMessage.Heads.{head_bytes}
use jrpxy.HttpMessage.Heads.Framed.{announced, Fits}
use jrpxy.Body.Writer.ContentLength
use jrpxy.Body.Writer.Chunked
use jrpxy.Body.Writer.Bodyless
use jrpxy.Body.Writer.Eof
use jrpxy.Frontend.Writer.Sends.{status_line, response_fields}
use jrpxy.Backend.Reader.{BackendBodyReader, bodyless, cl, te, eof}
use jrpxy.Proxy.Options.{ProxyOptions}
use jrpxy.Proxy.Request.{ClientOptions, PendingFrontendResponse}
use jrpxy.Proxy.Response.{
  BodyReady, of_bodyless, of_cl, of_chunked, of_eof, stamped, is_http10, forward_head,
}
use jrpxy.Proxy.Response.Answers.{chosen, body_for, forward_head-Answers}
use jrpxy.Proxy.Response.Final.{final_fields, others, stamped-final_fields, others-response_fields}

-- The backend's body has no length that is known beforehand.
abbrev pub IsUnsized : {R : Type 0} → BackendBodyReader R → Type 0
IsUnsized (te r recyclable) = Unit
IsUnsized (eof r slots) = Unit
IsUnsized _ = ⊥

abbrev pub HasLength : {R : Type 0} → ℕ → BackendBodyReader R → Type 0
HasLength n (cl r slots recyclable) = r.length ≡ n
HasLength n _ = ⊥

abbrev pub IsBodyless : {R : Type 0} → BackendBodyReader R → Type 0
IsBodyless (bodyless r slots recyclable) = Unit
IsBodyless _ = ⊥

abbrev pub Fits64 : {R : Type 0} → BackendBodyReader R → Type 0
Fits64 (cl r slots recyclable) = r.length ≤ u64_max
Fits64 _ = Unit

module _ {R O : Type 0} (client : ClientOptions) (code : ℕ) (final : List Field) where
  -- When a writer of the body may go with the fields `fs`, the sink `w` being behind the head: a client of version
  -- 1.0 gets no chunks; a length is the one that the backend declared; and without a body the client reads that
  -- there is none, except that the answer to HEAD and a 304 have their own fields untouched.
  abbrev pub Suits : BackendBodyReader R → List Field → O → BodyReady O → Type 0
  Suits reader fs w (of_chunked writer) =
      (writer.writer ≡ w)
      × IsUnsized reader
      × (client.version ≡ http11)
      × (framing (record { headers = fs }) ≡ ok ParsedFraming.chunked)
  Suits reader fs w (of_eof writer) =
      (writer.writer ≡ w)
      × IsUnsized reader
      × (client.version ≡ http10)
      × (framing (record { headers = fs }) ≡ ok no_framing)
  Suits reader fs w (of_cl writer) =
      (writer.writer ≡ w)
      × (writer.offset ≡ 0)
      × HasLength writer.length reader
      × (framing (record { headers = fs }) ≡ ok (ParsedFraming.length writer.length))
  Suits reader fs w (of_bodyless writer) =
      (writer.writer ≡ w)
      × IsBodyless reader
      × (((client.is_head ≡ true) ⊎ (code ≡ 304)) × (fs ≡ final)
          ⊎ (client.is_head ≡ false)
            × (code ≢ 304)
            × (framing (record { headers = fs }) ≡ ok no_framing))

module _ {R O E : Type 0} (sink : AsyncWriteExt O E) where
  -- A head with the status line of the response is on the sink, with fields that are those of `final` but for the
  -- ones that announce a framing, and the writer suits them.
  pub record Forwarded (now : Bytes) (pending : PendingFrontendResponse O) (response : Response)
      (reader : BackendBodyReader R) (ready : BodyReady O) : Type 0 where
    pub fields : List Field
    pub behind : O
    pub sent :
        sent_on sink behind
        ≡ sent_on sink pending.frontend_writer ++ head_bytes (status_line response) fields
    pub kept : others fields ≡ others (final_fields now pending.options.received_by response)
    pub suits :
        Suits pending.client_options response.code
          (final_fields now pending.options.received_by response)
          reader
          fields
          behind
          ready

Fits-unsized : (old : Bool) → Fits (if old then strip_framing else chunked)
Fits-unsized true = tt
Fits-unsized false = tt

Fits-bodyless : (own : Bool) → Fits (if own then preserve_framing else strip_framing)
Fits-bodyless true = tt
Fits-bodyless false = tt

module _ {R O E : Type 0} (sink : AsyncWriteExt O E) where
  Suits-unsized :
      (is_head : Bool) (version : HttpVersion) (code : ℕ) (final : List Field) (s : Response)
      (reader : BackendBodyReader R) (w : O)
      → IsUnsized reader
      → let f = if is_http10 version then strip_framing else chunked in
        (framing (record { headers = response_fields s f })
          ≡ (if preserves_framing f then framing s.headers else ok (announced f)))
        → Suits
            (record { is_head = is_head; version = version })
            code
            final
            reader
            (response_fields s f)
            w
            (if is_http10 version then of_eof (Eof.new w) else of_chunked (Chunked.new w))
  unfolding preserves_framing Eof.new Chunked.new
  Suits-unsized is_head http10 code final s reader w unsized reads = (refl, unsized, refl, reads)
  Suits-unsized is_head http11 code final s reader w unsized reads = (refl, unsized, refl, reads)

  Suits-bodyless :
      (own : Bool) (client : ClientOptions) (code : ℕ) (final : List Field) (s : Response)
      (reader : BackendBodyReader R) (w : O)
      → client.is_head || code == 304 ≡ own
      → IsBodyless reader
      → s.headers.headers ≡ final
      → let f = if own then preserve_framing else strip_framing in
        (framing (record { headers = response_fields s f })
          ≡ (if preserves_framing f then framing s.headers else ok (announced f)))
        → Suits client code final reader (response_fields s f) w (of_bodyless (Bodyless.new w))
  unfolding preserves_framing Bodyless.new
  Suits-bodyless true client code final s reader w why none same reads =
      (refl, none, inl (head_or_304, same))
    where
      head_or_304 : (client.is_head ≡ true) ⊎ (code ≡ 304)
      head_or_304 = ground (arith, why)
  Suits-bodyless false client code final s reader w why none same reads =
      (refl, none, inr (ground (arith, why), (λ e. ground (arith, why, e)), reads))

  forwarded :
      {M : Type 0} (now : Bytes) (pending : PendingFrontendResponse O) (response : Response)
      (reader : BackendBodyReader R) (options : ProxyOptions) (ready : BodyReady O)
      → let s = stamped now pending response in
        let f = chosen pending.client_options response.code reader in
        Fits f
        → forward_head {E = E} {M = M} sink now pending response reader ≡ ok (options, ready)
        → ((w : O)
            → (framing (record { headers = response_fields s f })
                ≡ (if preserves_framing f then framing s.headers else ok (announced f)))
            → Suits pending.client_options response.code
                (final_fields now pending.options.received_by response)
                reader
                (response_fields s f)
                w
                (body_for pending.client_options reader w))
        → Forwarded sink now pending response reader ready
  unfolding stamped
  forwarded now pending response reader options ready fits h suits =
      let s = stamped now pending response in
      let f = chosen pending.client_options response.code reader in
      let (w, is, sent, reads) = forward_head-Answers sink now pending response reader fits h in
      record {
        fields = response_fields s f;
        behind = w;
        sent = sent;
        kept = others-response_fields s f ∙ ap others (stamped-final_fields now pending response);
        suits =
            subst
              (Suits pending.client_options response.code
                (final_fields now pending.options.received_by response) reader (response_fields s f)
                w)
              (sym is) (suits w reads);
      }

  -- A final response that has been forwarded, whatever body the backend's response has: the head on the sink has the
  -- status line of the response; its fields, those aside that announce a framing, are the response's in their
  -- order, with Via behind them and Date if there was none; the framing that the client reads from it is
  -- that of the writer handed on, which suits the backend's body and the client's version; and the answer to HEAD
  -- and a 304 without a body keep all their fields. A declared length must fit 64 bits.
  pub forward_head-Forwarded :
      {M : Type 0} (now : Bytes) (pending : PendingFrontendResponse O) (response : Response)
      (reader : BackendBodyReader R) {options : ProxyOptions} {ready : BodyReady O}
      → Fits64 reader
      → forward_head {E = E} {M = M} sink now pending response reader ≡ ok (options, ready)
      → Forwarded sink now pending response reader ready
  unfolding preserves_framing ContentLength.new
  forward_head-Forwarded now pending response (te r b) fits h =
      let c = pending.client_options in
      forwarded now pending response (te r b) _ _ (Fits-unsized (is_http10 c.version)) h (λ w.
        Suits-unsized c.is_head c.version response.code _ (stamped now pending response) (te r b) w
          tt)
  forward_head-Forwarded now pending response (eof r slots) fits h =
      let c = pending.client_options in
      forwarded now pending response (eof r slots) _ _ (Fits-unsized (is_http10 c.version)) h (λ w.
        Suits-unsized c.is_head c.version response.code _ (stamped now pending response)
          (eof r slots) w tt)
  forward_head-Forwarded now pending response (cl r slots b) fits h =
      forwarded now pending response (cl r slots b) _ _ fits h
        (λ w reads. (refl, refl, refl, reads))
  forward_head-Forwarded now pending response (bodyless r slots b) fits h =
      let c = pending.client_options in
      let own = c.is_head || response.code == 304 in
      forwarded now pending response (bodyless r slots b) _ _ (Fits-bodyless own) h (λ w.
        Suits-bodyless own c response.code _ (stamped now pending response) (bodyless r slots b) w
          refl tt (stamped-final_fields now pending response))
