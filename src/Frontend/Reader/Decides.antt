-- ===== src/Frontend/Reader/Decides.antt =====
-- frontend/src/reader.rs: which requests are accepted, and with which body (RFC 9112 section 6.3).
use jrpxy.Prelude.{
  ℕ, ◌+◌, Bool, false, not, ◌&&◌, is_empty, List, [], ◌∷◌, some, Bytes, codes, Result, ok, err, ◌≡◌,
  refl, sym, ap, arith, bind-eq-ok, guarded-ok, map_err-eq-ok, ◌↔◌, ok-injective, subst,
}
use jrpxy.Util.Async.{Poll, pending, ready, AsyncRead}
use jrpxy.Util.IoBuffer.{BytesReader}
use jrpxy.Util.IoBuffer.Fills.{IsValid}
use jrpxy.Util.IoBuffer.Flows.{Flows}
use jrpxy.HttpMessage.Version.{HttpVersion, http10, http11}
use jrpxy.HttpMessage.Framing.{ParsedFraming}
use jrpxy.HttpMessage.Framing
use jrpxy.Body.Reader.ContentLength
use jrpxy.Body.Reader.Chunked
use jrpxy.Body.Reader.Chunked.{between_chunk, reading_size}
use jrpxy.Body.Reader.Bodyless
use jrpxy.HttpMessage.Header.{get_header, framing}
use jrpxy.HttpMessage.Connection.{connection_is_persistent}
use jrpxy.HttpMessage.Message.{Request}
use jrpxy.HttpMessage.Parse.{ParseSlots, HttpParse, MessageError, parse_request}
use jrpxy.HttpMessage.Parse.Cuts.{IsRequestHead, parse_request-Taken}
use jrpxy.HttpMessage.Parse.Head.{HeadError, Ended, poll_head-Ended, LeavesBy}
use jrpxy.Frontend.Error.{FrontendError, header_error, invalid_connection_header}
use jrpxy.Frontend.Reader.{
  FrontendReader, FrontendBodyReader, bodyless, cl, te, body_reader, is_http10, open_body, head,
  read_outcome, read,
}

te_fields : Request → List (Bytes × Bytes)
te_fields req = get_header req.headers (codes "transfer-encoding")

-- The body's reader by RFC 9112 section 6.3, on the data behind the head: for a request without framing fields there
-- is no body, and none of it has been read otherwise.
abbrev pub Opens :
    {I : Type 0}
    → ParsedFraming
    → BytesReader I
    → ParseSlots
    → ℕ
    → ℕ
    → Bool
    → FrontendBodyReader I
    → Type 0
Opens (Framing.ParsedFraming.length n) r slots c m keep b =
    b ≡ cl (record { length = n; offset = 0; reader = r }) slots keep
Opens Framing.ParsedFraming.chunked r slots c m keep b =
    b
    ≡ te
        (record {
          inner = some (
              between_chunk (record {
                reader = r;
                parse_slots = slots;
                max_chunk_header_length = c;
                max_trailer_length = m;
                state = reading_size;
              }));
        })
        keep
Opens Framing.ParsedFraming.no_framing r slots c m keep b =
    b ≡ bodyless (record { reader = r }) slots keep

body_reader-Opens :
    {I : Type 0} (f : ParsedFraming) (r : BytesReader I) (slots : ParseSlots) (c m : ℕ)
    (keep : Bool)
    → Opens f r slots c m keep (body_reader r slots c m keep f)
unfolding body_reader ContentLength.new Chunked.new Bodyless.new
body_reader-Opens (Framing.ParsedFraming.length n) r slots c m keep = refl
body_reader-Opens Framing.ParsedFraming.chunked r slots c m keep = refl
body_reader-Opens Framing.ParsedFraming.no_framing r slots c m keep = refl

Opens-body_reader :
    {I : Type 0} (f : ParsedFraming) (r : BytesReader I) (slots : ParseSlots) (c m : ℕ)
    (keep : Bool) (b : FrontendBodyReader I)
    → Opens f r slots c m keep b
    → b ≡ body_reader r slots c m keep f
unfolding body_reader ContentLength.new Chunked.new Bodyless.new
Opens-body_reader (Framing.ParsedFraming.length n) r slots c m keep b h = h
Opens-body_reader Framing.ParsedFraming.chunked r slots c m keep b h = h
Opens-body_reader Framing.ParsedFraming.no_framing r slots c m keep b h = h

-- The request is accepted with this reader of its body, on the data behind its head.
pub record Accepts {I : Type 0} (max_head_length max_chunk_header_length : ℕ) (r : BytesReader I)
    (slots : ParseSlots) (req : Request) (b : FrontendBodyReader I) : Type 0 where
  pub parsed : ParsedFraming
  pub keep : Bool
  pub framed : framing req.headers ≡ ok parsed
  pub persistent : connection_is_persistent req.headers req.version ≡ ok keep
  pub no_te_on_http10 :
      req.version ≡ http10 → get_header req.headers (codes "transfer-encoding") ≡ []
  pub body : Opens parsed r slots max_chunk_header_length max_head_length keep b

refused : HttpVersion → List (Bytes × Bytes) → Bool
refused v fs = is_http10 v && not (is_empty fs)

refused-false :
    (v : HttpVersion) (fs : List (Bytes × Bytes)) → refused v fs ≡ false → v ≡ http10 → fs ≡ []
unfolding refused
refused-false v [] h e = refl
refused-false http10 (f ∷ fs) h e = cc
refused-false http11 (f ∷ fs) h e = cc

false-refused :
    (v : HttpVersion) (fs : List (Bytes × Bytes)) → (v ≡ http10 → fs ≡ []) → refused v fs ≡ false
unfolding refused
false-refused http11 fs h = refl
false-refused http10 [] h = refl
false-refused http10 (f ∷ fs) h = cc (h refl)

module _ {I E P : Type 0} (m c : ℕ) (fr : FrontendReader I) (req : Request) where
  pub open_body-Accepts :
      (b : FrontendBodyReader I)
      → open_body {E = E} {P = P} m c fr req ≡ ok b
      → Accepts m c fr.reader fr.parse_slots req b
  unfolding open_body refused te_fields
  open_body-Accepts b h =
      let (good, h') = guarded-ok (refused req.version (te_fields req)) _ _ h in
      let (keep, e1, h1) = bind-eq-ok _ _ h' in
      let (f, e2, h2) = bind-eq-ok _ _ h1 in
      record {
        parsed = f;
        keep = keep;
        framed = map_err-eq-ok header_error (framing req.headers) e2;
        persistent = map_err-eq-ok invalid_connection_header _ e1;
        no_te_on_http10 = refused-false req.version (te_fields req) good;
        body =
            subst (Opens f fr.reader fr.parse_slots c m keep) (ok-injective h2)
              (body_reader-Opens f fr.reader fr.parse_slots c m keep);
      }

  Accepts-open_body :
      (b : FrontendBodyReader I)
      → Accepts m c fr.reader fr.parse_slots req b
      → open_body {E = E} {P = P} m c fr req ≡ ok b
  unfolding open_body refused te_fields
  Accepts-open_body b a =
      let good = false-refused req.version (te_fields req) a.no_te_on_http10 in
      rw (good, open_body)
        (rw (a.persistent, a.framed)
          (ap ok (sym (Opens-body_reader a.parsed fr.reader fr.parse_slots c m a.keep b a.body))))

-- What `read` comes to.
pub record Reads {I E P : Type 0} (source : AsyncRead I E) (http : HttpParse P) (m c : ℕ)
    (fr : FrontendReader I) : Type 0 where
  pub outcome : Poll (Result Request (HeadError E P))
  pub reader : BytesReader I
  pub heads : head source http m fr ≡ some (outcome, reader)
  pub returned : Poll (Result (Request × FrontendBodyReader I) (FrontendError E (MessageError P)))
  pub returns : read source http m c fr ≡ some (returned, reader)
  pub taken : Bytes
  pub flows : Flows source fr.reader reader taken
  pub leaves : LeavesBy (IsRequestHead http fr.parse_slots) outcome taken
  pub accepts :
      (req : Request) (b : FrontendBodyReader I)
      → (returned ≡ ready (ok (req, b)))
        ↔ ((outcome ≡ ready (ok req)) × Accepts m c reader fr.parse_slots req b)

ready-injective : {A : Type 0} {a b : A} → ready a ≡ ready b → a ≡ b
ready-injective h = cc

pair-injective :
    {A B E : Type 0} {a c : A} {b d : B}
    → ◌≡◌ {A = Result (A × B) E} (ok (a, b)) (ok (c, d))
    → (a ≡ c) × (b ≡ d)
pair-injective h = (cc, cc)

module _ {I E P : Type 0} (m c : ℕ) (slots : ParseSlots) (r : BytesReader I) where
  accepted_by :
      (o : Poll (Result Request (HeadError E P))) (req : Request) (b : FrontendBodyReader I)
      → read_outcome m c slots o r ≡ ready (ok (req, b))
      → (o ≡ ready (ok req)) × Accepts m c r slots req b
  unfolding read_outcome
  accepted_by pending req b h = cc
  accepted_by (ready (err e)) req b h = cc
  accepted_by (ready (ok req')) req b h =
      let fr : FrontendReader I = record { reader = r; parse_slots = slots } in
      let (b', opens, e) =
        bind-eq-ok (open_body {E = E} {P = P} m c fr req') (λ x. ok (req', x))
          (ready-injective h) in
      let same : (req' ≡ req) × (b' ≡ b) = pair-injective e in
      (
        ap (λ (x : Request). ready (ok x)) same.0,
        subst (λ (x : Request). Accepts m c r slots x b) same.0
            (subst (λ x. Accepts m c r slots req' x) same.1
              (open_body-Accepts m c fr req' b' opens)),
      )

  decided_by :
      (o : Poll (Result Request (HeadError E P))) (req : Request) (b : FrontendBodyReader I)
      → (o ≡ ready (ok req)) × Accepts m c r slots req b
      → read_outcome m c slots o r ≡ ready (ok (req, b))
  unfolding read_outcome
  decided_by o req b (e, a) =
      let fr : FrontendReader I = record { reader = r; parse_slots = slots } in
      rw e (rw (Accepts-open_body {E = E} {P = P} m c fr req b a) refl)

-- `FrontendReader::head` from a valid reader ends without a panic, for any source. If it returns a request, what it has
-- taken off the stream is a head that httparse has parsed completely as the front of the data, with just the length
-- that httparse gave, and the method, the path and the fields of the request are its slices of that head; otherwise
-- it has taken nothing.
pub head-Ended :
    {I E P : Type 0} (source : AsyncRead I E) (http : HttpParse P) (max_head_length : ℕ)
    (fr : FrontendReader I)
    → IsValid fr.reader.buffer
    → Ended source
        (IsRequestHead http fr.parse_slots)
        fr.reader
        (head source http max_head_length fr)
unfolding head
head-Ended source http m fr v =
    poll_head-Ended source (IsRequestHead http fr.parse_slots) (parse_request http fr.parse_slots)
      (λ r w. parse_request-Taken http fr.parse_slots r w) (m + 1) m fr.reader v (omega arith)
      (omega arith)

-- `read` from a valid reader ends without a panic, for any source. What it takes off the stream is the head of the
-- request that its head loop returns, as httparse has parsed it, and otherwise nothing. It returns a request with a
-- body reader exactly if the head loop returns that request and: its framing fields are sound, the Connection
-- field parses, and a version 1.0 request has no Transfer-Encoding field. The body reader has read nothing yet and
-- stands behind the head, and is one for the declared length, for chunks with the limits given, or without
-- framing fields for no body; it lets the connection be reused as the Connection field says.
pub read-Reads :
    {I E P : Type 0} (source : AsyncRead I E) (http : HttpParse P) (m c : ℕ) (fr : FrontendReader I)
    → IsValid fr.reader.buffer
    → Reads source http m c fr
unfolding read
read-Reads source http m c fr v =
    let ended = head-Ended source http m fr v in
    record {
      outcome = ended.outcome;
      reader = ended.reader;
      heads = ended.returns;
      returned = read_outcome m c fr.parse_slots ended.outcome ended.reader;
      returns = rw (ended.returns, read) refl;
      taken = ended.head;
      flows = ended.flows;
      leaves = ended.leaves;
      accepts = λ req b. (
        accepted_by m c fr.parse_slots ended.reader ended.outcome req b,
        decided_by m c fr.parse_slots ended.reader ended.outcome req b,
      );
    }
