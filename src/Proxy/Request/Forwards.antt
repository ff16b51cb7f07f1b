-- ===== src/Proxy/Request/Forwards.antt =====
-- proxy/src/lib.rs: what `FrontendProxyRequest::from_request` lets through, and what it changes.
use jrpxy.Prelude.{
  ℕ, Bytes, true, false, not, ◌==◌, ◌≤◌, ◌&&◌, ltb, List, ◌≡◌, refl, sym, ap, ◌∙◌, subst, arith,
  Result, ok, err, codes, length, bytes_eq, all, all-keep_if, Bool-cases, Result-cases, inl, inr,
  ◌⊎◌, ok-injective, err-injective, err-ne-ok,
}
use jrpxy.HttpMessage.Header.{get_header, retain}
use jrpxy.HttpMessage.Message.{Request}
use jrpxy.Proxy.Error.{
  ProxyFrontendError, connect_not_supported, invalid_connection_header, trace_not_supported,
  options_not_supported, missing_host, multiple_hosts,
}
use jrpxy.Proxy.Target.{normalize}
use jrpxy.Proxy.Target.Normal.{Normal, normalize-Normal, normalize_atomic}
use jrpxy.Proxy.Fields.{is_hop_by_hop, strip_hop_by_hop_headers}
use jrpxy.Proxy.Options.{ProxyOptions}
use jrpxy.Proxy.Request.{
  FrontendRequest, PendingFrontendResponse, FrontendRequestError, FrontendProxyRequest,
  get_connection_tokens, is_http11, new, checked, from_request,
}

abbrev host_count : Request → ℕ
host_count req = length (get_header req.headers (codes "host"))

-- What passes the checks that come before the request-target.
pub record Passed (req : Request) : Type 0 where
  pub no_connect : bytes_eq req.method (codes "CONNECT") ≡ false
  pub no_trace : bytes_eq req.method (codes "TRACE") ≡ false
  pub no_options : bytes_eq req.method (codes "OPTIONS") ≡ false
  pub one_host : host_count req ≤ 1
  pub host : is_http11 req.version ≡ true → host_count req ≡ 1

module _ {R W : Type 0} where
  -- The request that `new` makes.
  abbrev made :
      FrontendRequest R → PendingFrontendResponse W → List Bytes → FrontendProxyRequest R W
  made request pending tokens =
      let req = (normalize request.req).1 in
      record {
        frontend = record request {
          req = record req { headers = strip_hop_by_hop_headers tokens req.headers };
        };
        original = request.req;
        pending = pending;
      }

  -- A refusal that gives the request back.
  abbrev Refuses :
      FrontendRequest R
      → PendingFrontendResponse W
      → Result (FrontendProxyRequest R W) (FrontendRequestError R W)
      → Type 0
  Refuses request pending outcome =
      (e : ProxyFrontendError) × (outcome
        ≡ err (record { request = request; pending = pending; error = e }))

  new_cases :
      (request : FrontendRequest R) (pending : PendingFrontendResponse W) (tokens : List Bytes)
      → Refuses request pending (new request pending tokens)
        ⊎ (((normalize request.req).0 ≡ ok tt)
            × (new request pending tokens ≡ ok (made request pending tokens)))
  unfolding new
  new_cases request pending tokens = elim (Result-cases (normalize request.req).0) [
    | inl (_, h) ↦ inr (h, rw (new, h) refl)
    | inr (e, h) ↦
        let same : (normalize request.req).1 ≡ request.req = normalize_atomic request.req e h in
        inl (
          e,
          rw (new, h)
              (ap
                (λ (x : Request).
                  err
                    (record { request = record request { req = x }; pending = pending; error = e }))
                same),
        )
  ]

  settle :
      (request : FrontendRequest R) (pending : PendingFrontendResponse W) (tokens : List Bytes)
      {outcome : Result (FrontendProxyRequest R W) (FrontendRequestError R W)}
      → Passed request.req
      → Refuses request pending outcome
        ⊎ (((normalize request.req).0 ≡ ok tt) × (outcome ≡ ok (made request pending tokens)))
      → Refuses request pending outcome
        ⊎ (Passed request.req
            × ((normalize request.req).0 ≡ ok tt)
            × (outcome ≡ ok (made request pending tokens)))
  settle request pending tokens p (inl r) = inl r
  settle request pending tokens p (inr (n, e)) = inr (p, n, e)

  checked_cases :
      (request : FrontendRequest R) (pending : PendingFrontendResponse W) (tokens : List Bytes)
      → Refuses request pending (checked request pending tokens)
        ⊎ (Passed request.req
            × ((normalize request.req).0 ≡ ok tt)
            × (checked request pending tokens ≡ ok (made request pending tokens)))
  unfolding checked
  checked_cases request pending tokens =
      elim (Bool-cases (bytes_eq request.req.method (codes "CONNECT"))) [
        | inl a ↦ inl (connect_not_supported, rw (checked, a) refl)
        | inr a ↦ elim (Bool-cases (bytes_eq request.req.method (codes "TRACE"))) [
          | inl b ↦ inl (trace_not_supported, rw (checked, a, b) refl)
          | inr b ↦ elim (Bool-cases (bytes_eq request.req.method (codes "OPTIONS"))) [
            | inl c ↦ inl (options_not_supported, rw (checked, a, b, c) refl)
            | inr c ↦ elim (Bool-cases (ltb 1 (host_count request.req))) [
              | inl d ↦ inl (multiple_hosts, rw (checked, a, b, c, d) refl)
              | inr d ↦
                  elim (Bool-cases (is_http11 request.req.version && host_count request.req == 0)) [
                    | inl e ↦ inl (missing_host, rw (checked, a, b, c, d, e) refl)
                    | inr e ↦
                        rw (checked, a, b, c, d, e)
                          (settle request pending tokens
                            (record {
                              no_connect = a;
                              no_trace = b;
                              no_options = c;
                              one_host = ground (arith, d);
                              host = λ v. ground (arith, v, d, e);
                            })
                            (new_cases request pending tokens))
                  ]
            ]
          ]
        ]
      ]

  -- The pending response of `from_request`.
  abbrev pending_of : FrontendRequest R → W → ProxyOptions → PendingFrontendResponse W
  pending_of request writer options = record {
    frontend_writer = writer;
    options = options;
    client_options = record {
      is_head = bytes_eq request.req.method (codes "HEAD");
      version = request.req.version;
    };
  }

  from_request_cases :
      (request : FrontendRequest R) (writer : W) (options : ProxyOptions)
      → Refuses request (pending_of request writer options) (from_request request writer options)
        ⊎ ((tokens : List Bytes) × (get_connection_tokens request.req.headers ≡ ok tokens)
            × Passed request.req
            × ((normalize request.req).0 ≡ ok tt)
            × (from_request request writer options
                ≡ ok (made request (pending_of request writer options) tokens)))
  unfolding from_request
  from_request_cases request writer options =
      elim (Result-cases (get_connection_tokens request.req.headers)) [
        | inr (e, h) ↦ inl (invalid_connection_header e, rw (from_request, h) refl)
        | inl (tokens, h) ↦
            elim (checked_cases request (pending_of request writer options) tokens) [
              | inl (e, k) ↦ inl (e, rw (from_request, h) k)
              | inr (p, n, k) ↦ inr (tokens, h, p, n, rw (from_request, h) k)
            ]
      ]

  -- What is known of a request that is let through.
  pub record Forwarded (request : FrontendRequest R) (p : FrontendProxyRequest R W) : Type 0 where
    pub tokens : List Bytes
    pub listed : get_connection_tokens request.req.headers ≡ ok tokens
    pub passed : Passed request.req
    pub normal_request : Request
    pub normal : Normal request.req normal_request
    pub stripped : p.frontend.req.headers ≡ strip_hop_by_hop_headers tokens normal_request.headers
    pub no_hop_by_hop :
        all (λ f. not (is_hop_by_hop f.0 tokens)) p.frontend.req.headers.headers ≡ true
    pub same_path : p.frontend.req.path ≡ normal_request.path
    pub same_method : p.frontend.req.method ≡ normal_request.method
    pub same_version : p.frontend.req.version ≡ normal_request.version
    pub same_reader : p.frontend.reader ≡ request.reader
    pub as_received : p.original ≡ request.req

  -- A request that `from_request` lets through has a method other than CONNECT, TRACE and OPTIONS, and
  -- at most one Host field, just one in HTTP/1.1. What is forwarded is the request as `normalize`
  -- leaves it, without the hop-by-hop fields: none is left that is one by the standard or is named by a
  -- Connection field of the request. The body and a copy of the request as received are kept.
  pub from_request-Forwarded :
      (request : FrontendRequest R) (writer : W) (options : ProxyOptions)
      (p : FrontendProxyRequest R W)
      → from_request request writer options ≡ ok p
      → Forwarded request p
  unfolding strip_hop_by_hop_headers retain normalize
  from_request-Forwarded request writer options p h =
      elim (from_request_cases request writer options) [
        | inl (e, k) ↦ absurd (err-ne-ok (sym k ∙ h))
        | inr (tokens, listed, passed, n, k) ↦
            let same = ok-injective (sym k ∙ h) in
            subst (λ x. Forwarded request x) same
              (record {
                tokens = tokens;
                listed = listed;
                passed = passed;
                normal_request = (normalize request.req).1;
                normal = normalize-Normal request.req n;
                stripped = refl;
                no_hop_by_hop =
                    all-keep_if (λ f. not (is_hop_by_hop f.0 tokens))
                      (normalize request.req).1.headers.headers;
                same_path = refl;
                same_method = refl;
                same_version = refl;
                same_reader = refl;
                as_received = refl;
              })
      ]

  -- A request that `from_request` refuses is given back as it was received, with its body and with the
  -- frontend's writer.
  pub from_request_recovers :
      (request : FrontendRequest R) (writer : W) (options : ProxyOptions)
      (e : FrontendRequestError R W)
      → from_request request writer options ≡ err e
      → (e.request ≡ request) × (e.pending.frontend_writer ≡ writer) × (e.pending.options ≡ options)
  from_request_recovers request writer options e h =
      elim (from_request_cases request writer options) [
        | inl (_, k) ↦
            let same = err-injective (sym k ∙ h) in
            (
              sym (ap (λ (x : FrontendRequestError R W). x.request) same),
              sym (ap (λ (x : FrontendRequestError R W). x.pending.frontend_writer) same),
              sym (ap (λ (x : FrontendRequestError R W). x.pending.options) same),
            )
        | inr (_, _, _, _, k) ↦ absurd (err-ne-ok (sym h ∙ k))
      ]
