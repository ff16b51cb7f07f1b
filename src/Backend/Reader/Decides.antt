-- ===== src/Backend/Reader/Decides.antt =====
-- backend/src/reader.rs: which responses are accepted, and with which body (RFC 9112 section 6.3).
use jrpxy.Prelude.{
  ℕ, ◌<◌, ◌≤◌, Bool, true, false, not, ◌&&◌, ◌||◌, ◌==◌, leb, ltb, is_empty, List, [], ◌∷◌, Option,
  none, some, Bytes, codes, ok, map_err, if◌then◌else◌, ◌≡◌, ◌≢◌, ◌⊎◌, refl, ap, ◌∙◌, arith,
  bind-eq-ok, guarded-ok, map_err-eq-ok, ok-injective, subst,
}
use jrpxy.HttpMessage.Version.{HttpVersion, http10, http11}
use jrpxy.HttpMessage.Framing.{ParsedFraming, no_framing, is_no_framing}
use jrpxy.HttpMessage.Framing
use jrpxy.HttpMessage.Header.{get_header, framing}
use jrpxy.HttpMessage.Connection.{ConnectionTokenParserError, connection_is_persistent}
use jrpxy.HttpMessage.Message.{Response, is_informational}
use jrpxy.HttpMessage.Parse.{MessageError}
use jrpxy.Body.Reader.ContentLength
use jrpxy.Body.Reader.Chunked
use jrpxy.Body.Reader.Bodyless
use jrpxy.Body.Reader.Eof
use jrpxy.Backend.Error.{BackendError, header_error, invalid_connection_header}
use jrpxy.Backend.Reader.{
  BackendReader, BackendBodyReader, bodyless, cl, te, eof, ResponseStream, final, informational,
  body_reader, framed_reader, is_http10, code_has_body, is_some, open_stream, check_framing,
  open_response,
}

-- The body of a final response by RFC 9112 section 6.3: none if the request or the code forbids one, else by the
-- framing, else up to the end of the connection.
abbrev pub rfc_body :
    {I : Type 0} → Bool → ℕ → BackendReader I → ℕ → ℕ → Bool → ParsedFraming → BackendBodyReader I
rfc_body allow_body code br c m keep f =
    if not allow_body || code == 204 || code == 304
    then bodyless (Bodyless.new br.reader) br.parse_slots keep
    else elim f [
      | Framing.ParsedFraming.length n ↦ cl (ContentLength.new n br.reader) br.parse_slots keep
      | Framing.ParsedFraming.chunked ↦ te (Chunked.new br.reader br.parse_slots c m) keep
      | Framing.ParsedFraming.no_framing ↦ eof (Eof.new br.reader) br.parse_slots
    ]

-- What holds of every response that is accepted.
pub record IsSane (res : Response) (f : ParsedFraming) : Type 0 where
  pub framed : framing res.headers ≡ ok f
  pub none_on_204 : res.code ≡ 204 → f ≡ no_framing
  pub none_on_informational : 100 ≤ res.code → res.code < 200 → f ≡ no_framing
  pub no_te_on_http10 :
      res.version ≡ http10 → get_header res.headers (codes "transfer-encoding") ≡ []

-- A stream that `read` returns, by its kind.
abbrev pub Accepts :
    {I : Type 0}
    → Bool
    → ℕ
    → ℕ
    → BackendReader I
    → Response
    → ParsedFraming
    → ResponseStream I
    → Type 0
Accepts allow_body m c br res f (final res' b) =
    (res' ≡ res)
    × (res.code < 100 ⊎ 200 ≤ res.code)
    × (keep : Bool) × (connection_is_persistent res.headers res.version ≡ ok keep)
    × (b ≡ rfc_body allow_body res.code br c m keep f)
Accepts allow_body m c br res f (informational res' s) =
    (res' ≡ res)
    × (100 ≤ res.code)
    × (res.code < 200)
    × (res.code ≢ 101)
    × (res.code ≢ 102)
    × (s ≡ record {
      allow_body = allow_body;
      max_head_length = m;
      max_chunk_header_length = c;
      reader = br;
    })

no_framing_if :
    (b : Bool) (f : ParsedFraming) → b && not (is_no_framing f) ≡ false → b ≡ true → f ≡ no_framing
unfolding is_no_framing
no_framing_if true (Framing.ParsedFraming.length n) h e = cc
no_framing_if true Framing.ParsedFraming.chunked h e = cc
no_framing_if true Framing.ParsedFraming.no_framing h e = refl
no_framing_if false f h e = cc

no_fields_if :
    (v : HttpVersion) (fs : List (Bytes × Bytes))
    → is_http10 v && not (is_empty fs) ≡ false
    → v ≡ http10
    → fs ≡ []
no_fields_if v [] h e = refl
no_fields_if http10 (f ∷ fs) h e = cc
no_fields_if http11 (f ∷ fs) h e = cc

informational_code :
    (res : Response) (n : ℕ)
    → is_informational res ≡ some n
    → (n ≡ res.code) × (100 ≤ res.code) × (res.code < 200)
unfolding is_informational
informational_code res n h = ground arith

final_code : (res : Response) → is_informational res ≡ none → res.code < 100 ⊎ 200 ≤ res.code
unfolding is_informational
final_code res h = ground arith

some_if_informational :
    (res : Response) → 100 ≤ res.code → res.code < 200 → is_some (is_informational res) ≡ true
unfolding is_informational
some_if_informational res lo hi =
    let a : leb 100 res.code ≡ true = ground arith in
    let b : ltb res.code 200 ≡ true = ground arith in rw (a, b) refl

code_has_body_lem :
    (code : ℕ) → code < 100 ⊎ 200 ≤ code → code_has_body code ≡ not (code == 204 || code == 304)
unfolding code_has_body
code_has_body_lem code h =
    let final_one : leb 100 code && leb code 199 ≡ false = ground arith in rw final_one refl

module _ {I : Type 0} (br : BackendReader I) (c m : ℕ) (keep : Bool) where
  body_by_parts :
      (allow closed_code other_code : Bool) (f : ParsedFraming)
      → body_reader (allow && not (closed_code || other_code)) br c m keep f ≡ (
          if not allow || closed_code || other_code
          then bodyless (Bodyless.new br.reader) br.parse_slots keep
          else elim f [
            | Framing.ParsedFraming.length n ↦
                cl (ContentLength.new n br.reader) br.parse_slots keep
            | Framing.ParsedFraming.chunked ↦ te (Chunked.new br.reader br.parse_slots c m) keep
            | Framing.ParsedFraming.no_framing ↦ eof (Eof.new br.reader) br.parse_slots
          ])
  unfolding body_reader framed_reader is_no_framing
  body_by_parts false a b f = refl
  body_by_parts true true b f = refl
  body_by_parts true false true f = refl
  body_by_parts true false false (Framing.ParsedFraming.length n) = refl
  body_by_parts true false false Framing.ParsedFraming.chunked = refl
  body_by_parts true false false Framing.ParsedFraming.no_framing = refl

module _ {I E P : Type 0} (allow_body : Bool) (m c : ℕ) (br : BackendReader I)
    (res : Response) where
  stream-Accepts :
      (f : ParsedFraming) (o : Option ℕ) (s : ResponseStream I)
      → is_informational res ≡ o
      → open_stream {E = E} {P = P} allow_body m c br res f o ≡ ok s
      → Accepts allow_body m c br res f s
  unfolding open_stream
  stream-Accepts f (some n) s e h =
      let (same, lo, hi) = informational_code res n e in
      let (not_101, h1) = guarded-ok (n == 101) _ _ h in
      let (not_102, h2) = guarded-ok (n == 102) _ _ h1 in
      subst (λ x. Accepts allow_body m c br res f x) (ok-injective h2)
        (refl, lo, hi, λ x. ground arith, λ x. ground arith, refl)
  stream-Accepts f none s e h =
      let refuse : ConnectionTokenParserError → BackendError E (MessageError P) =
        λ e. invalid_connection_header e in
      let (keep, e1, h1) =
        bind-eq-ok (map_err refuse (connection_is_persistent res.headers res.version))
          (λ x. ok (final res (body_reader (allow_body && code_has_body res.code) br c m x f))) h in
      let b = body_reader (allow_body && code_has_body res.code) br c m keep f in
      subst (λ x. Accepts allow_body m c br res f x) {x = final res b} (ok-injective h1)
        (
          refl,
          final_code res e,
          keep,
          map_err-eq-ok invalid_connection_header _ e1,
          ap (λ x. body_reader (allow_body && x) br c m keep f)
                (code_has_body_lem res.code (final_code res e))
              ∙ body_by_parts br c m keep allow_body (res.code == 204) (res.code == 304) f,
        )

  -- A response that is accepted has sound framing fields, none at all if its code is informational or 204, and no
  -- Transfer-Encoding field if its version is 1.0. If the code is informational, it is neither 101 nor
  -- 102, and reading goes on right behind it with the same limits. If not, the Connection field parses, and the
  -- body is what RFC 9112 section 6.3 says: none if the request forbids one or the code is 204 or 304, else
  -- of the declared length or of chunks, else up to the end of the connection.
  pub open_response-Accepts :
      (s : ResponseStream I)
      → open_response {E = E} {P = P} allow_body m c br res ≡ ok s
      → (f : ParsedFraming) × IsSane res f × Accepts allow_body m c br res f s
  unfolding open_response check_framing
  open_response-Accepts s h =
      let (f, e1, h1) = bind-eq-ok _ _ h in
      let (a, h2) = guarded-ok (res.code == 204 && not (is_no_framing f)) _ _ h1 in
      let (b, h3) = guarded-ok (is_some (is_informational res) && not (is_no_framing f)) _ _ h2 in
      let (d, h4) =
        guarded-ok
          (is_http10 res.version
            && not (is_empty (get_header res.headers (codes "transfer-encoding"))))
          _ _ h3 in
      (
        f,
        record {
          framed = map_err-eq-ok header_error _ e1;
          none_on_204 = λ e. no_framing_if (res.code == 204) f a (ground arith);
          none_on_informational = λ lo hi.
              no_framing_if (is_some (is_informational res)) f b (some_if_informational res lo hi);
          no_te_on_http10 = no_fields_if res.version _ d;
        },
        stream-Accepts f (is_informational res) s refl h4,
      )
