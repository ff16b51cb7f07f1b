-- ===== src/HttpMessage/Parse/Cuts.antt =====
-- http-message/src/message.rs: a parse takes the head off the reader, and does not panic.
use jrpxy.Prelude.{
  ◌++◌, sym, ◌∙◌, append-nil, append_assoc, ℕ, ◌+◌, ◌≤◌, List, [], ◌∷◌, Option, none, some, Bytes,
  leb, length, take, drop, Result, ok, err, ◌≡◌, refl, arith, All, length-take, true,
}
use jrpxy.Util.IoBuffer.{BytesReader, as_bytes, len}
use jrpxy.Util.IoBuffer.Fills.{IsValid}
use jrpxy.Util.IoBuffer.Cuts.{CutsTo, split_to-CutsTo}
use jrpxy.HttpMessage.Version.{HttpVersion, try_from}
use jrpxy.HttpMessage.Header.{Field, Headers, new, push_raw}
use jrpxy.HttpMessage.Message.{Request}
use jrpxy.HttpMessage.Parse.{
  ParseSlots, Status, partial, complete, Span, Within, FieldWithin, HeaderOffset, ParsedRequest,
  HttpParse, MessageError, parse, http_version, slice_from, populate_headers, Parsed, take_head,
  make_request, parse_request,
}

slice_from-some :
    (s : Span) (buf : Bytes)
    → Within (length buf) s
    → slice_from s buf ≡ some (take s.len (drop s.offset buf))
unfolding slice_from
slice_from-some s buf h =
    let inside : leb (s.offset + s.len) (length buf) ≡ true = ground arith in rw inside refl

-- The bytes of a span.
abbrev pub text : Span → Bytes → Bytes
text s bs = take s.len (drop s.offset bs)

-- The fields at the offsets, in order.
abbrev pub field_texts : List HeaderOffset → Bytes → List Field
field_texts [] bs = []
field_texts (h ∷ hs) bs = (text h.name bs, text h.value bs) ∷ field_texts hs bs

pub populate_headers-some :
    (hs : List HeaderOffset) (buf : Bytes) (h : Headers)
    → All (FieldWithin (length buf)) hs
    → (h' : Headers) × (populate_headers hs buf h ≡ some h')
      × (h'.headers ≡ h.headers ++ field_texts hs buf)
unfolding populate_headers push_raw
populate_headers-some [] buf h a = (h, refl, sym (append-nil h.headers))
populate_headers-some (x ∷ hs) buf h ((name, value), a) =
    let (h', e, all_of) =
      populate_headers-some hs buf (push_raw h (text x.name buf) (text x.value buf)) a in
    (
      h',
      rw (slice_from-some x.name buf name, populate_headers)
          (rw (slice_from-some x.value buf value) e),
      all_of ∙ append_assoc h.headers _ (field_texts hs buf),
    )

-- A request that httparse has parsed from the head, which was the front of the data: its method, its path and its
-- fields are those slices of the head, in order.
pub record IsRequestHead {P : Type 0} (http : HttpParse P) (slots : ParseSlots) (head : Bytes)
    (req : Request) : Type 0 where
  pub rest : Bytes
  pub parsed : ParsedRequest
  pub parses :
      http.parse_request slots.slot_count (head ++ rest) ≡ ok (complete (length head, parsed))
  pub method : req.method ≡ text parsed.method head
  pub path : req.path ≡ text parsed.path head
  pub version : try_from parsed.version ≡ ok req.version
  pub headers : req.headers.headers ≡ field_texts parsed.headers head

make_request-some :
    (version : HttpVersion) (p : ParsedRequest) (buf : Bytes)
    → Within (length buf) p.method
    → Within (length buf) p.path
    → All (FieldWithin (length buf)) p.headers
    → (h : Headers) × (make_request version p buf
        ≡ some (record {
          method = text p.method buf;
          path = text p.path buf;
          version = version;
          headers = h;
        }))
      × (h.headers ≡ field_texts p.headers buf)
unfolding make_request
make_request-some version p buf m q a =
    let (h, e, fields) = populate_headers-some p.headers buf new a in
    (
      h,
      rw (slice_from-some p.method buf m, make_request)
          (rw (slice_from-some p.path buf q) (rw e refl)),
      fields,
    )

module _ {I P : Type 0} where
  -- The parse does not panic. If it returns a value, a front part of the data has left the reader, and the
  -- value is made from that, as `Made` says; otherwise the reader is as before.
  pub data Taken {A : Type 0} (Made : Bytes → A → Type 0) (r : BytesReader I)
      : Parsed I A P → Type 0 where
    taken :
        (a : A) (head : Bytes) (r' : BytesReader I) {p : Parsed I A P}
        → CutsTo r head r'
        → p ≡ some (ok (some a), r')
        → Made head a
        → Taken Made r p
    waits : {p : Parsed I A P} → p ≡ some (ok none, r) → Taken Made r p
    fails : (e : MessageError P) {p : Parsed I A P} → p ≡ some (err e, r) → Taken Made r p

  -- A head that lies in the reader, and from which a value can be made.
  pub take_head-some :
      {A : Type 0} (Made : Bytes → A → Type 0) (r : BytesReader I) (n : ℕ) (make : Bytes → Option A)
      → IsValid r.buffer
      → n ≤ len r
      → ((buf rest : Bytes)
          → length buf ≡ n
          → as_bytes r ≡ buf ++ rest
          → (a : A) × (make buf ≡ some a) × Made buf a)
      → (a : A) × (head : Bytes) × (r' : BytesReader I) × CutsTo r head r'
        × (take_head {P = P} r n make ≡ some (ok (some a), r'))
        × Made head a
  unfolding take_head
  take_head-some Made r n make v le total =
      let (bs, r', e, cuts, size, left) = split_to-CutsTo r v n le in
      let (a, made, from) = total bs (as_bytes r') size cuts.splits in
      (a, bs, r', cuts, rw (e, take_head) (rw made refl), from)

  take_head-Taken :
      {A : Type 0} (Made : Bytes → A → Type 0) (r : BytesReader I) (n : ℕ) (make : Bytes → Option A)
      → IsValid r.buffer
      → n ≤ len r
      → ((buf rest : Bytes)
          → length buf ≡ n
          → as_bytes r ≡ buf ++ rest
          → (a : A) × (make buf ≡ some a) × Made buf a)
      → Taken Made r (take_head {P = P} r n make)
  take_head-Taken Made r n make v le total =
      let (a, head, r', cuts, e, from) = take_head-some Made r n make v le total in
      taken a head r' cuts e from

pub as_bytes-length :
    {I : Type 0} (r : BytesReader I) → IsValid r.buffer → length (as_bytes r) ≡ len r
as_bytes-length r v = omega (arith, length-take r.buffer.position r.buffer.buffer, v)

module _ {I P : Type 0} (http : HttpParse P) (slots : ParseSlots) (r : BytesReader I)
    (v : IsValid r.buffer) where
  -- What the parse of a head does when httparse is done and the version is known.
  with_version :
      {A : Type 0} (Made : Bytes → A → Type 0) (n : ℕ) (m : Result HttpVersion ℕ)
      (make : HttpVersion → Bytes → Option A)
      → n ≤ length (as_bytes r)
      → ((w : HttpVersion) (buf rest : Bytes)
          → m ≡ ok w
          → length buf ≡ n
          → as_bytes r ≡ buf ++ rest
          → (a : A) × (make w buf ≡ some a) × Made buf a)
      → Taken Made r (elim m as (λ _. Parsed I A P) [
        | err e ↦ some (err (http_version e), r)
        | ok w ↦ take_head r n (make w)
      ])
  with_version Made n (err e) make le total = fails (http_version e) refl
  with_version Made n (ok w) make le total =
      take_head-Taken Made r n (make w) v (omega (arith, le, as_bytes-length r v))
        (λ buf rest. total w buf rest refl)

  request_cases :
      (m : Result (Status (ℕ × ParsedRequest)) P)
      → http.parse_request slots.slot_count (as_bytes r) ≡ m
      → Taken (IsRequestHead http slots) r (parse_request http slots r)
  unfolding parse_request
  request_cases (err e) h = fails (parse e) (rw (h, parse_request) refl)
  request_cases (ok partial) h = waits (rw (h, parse_request) refl)
  request_cases (ok (complete (n, p))) h =
      let (le, method, path, fields) = http.request_inside slots.slot_count (as_bytes r) n p h in
      rw (h, parse_request)
        (with_version (IsRequestHead http slots) n (try_from p.version) (λ w. make_request w p) le
          (λ w buf rest version size splits.
            let (headers, made, texts) =
              make_request-some w p buf (rw size method) (rw size path) (rw size fields) in
            (
              record {
                method = text p.method buf;
                path = text p.path buf;
                version = w;
                headers = headers;
              },
              made,
              record {
                rest = rest;
                parsed = p;
                parses = rw (← splits, size) h;
                method = refl;
                path = refl;
                version = version;
                headers = texts;
              },
            )))

  -- `ParseSlots::parse_request` on a valid reader does not panic, if httparse keeps its slices within the head
  -- that it reports: a complete parse takes just that head off the reader, and any other leaves it alone.
  pub parse_request-Taken : Taken (IsRequestHead http slots) r (parse_request http slots r)
  parse_request-Taken = request_cases (http.parse_request slots.slot_count (as_bytes r)) refl
