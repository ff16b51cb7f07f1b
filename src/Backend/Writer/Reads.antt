-- ===== src/Backend/Writer/Reads.antt =====
-- backend/src/writer.rs and body/src/writer/chunked.rs: a request that has been written reads back.
use jrpxy.Prelude.{
  suc, ℕ, ◌+◌, ◌<◌, ◌&&◌, Bool, true, List, [], ◌∷◌, ◌++◌, some, Bytes, codes, ◌≡◌, refl, ap, ◌∙◌,
  arith, All, all, length, append_assoc, ok, to_decimal, to_decimal_digits, is_ascii_digit,
  all-append, Bool-cases, inl, inr,
}
use jrpxy.Util.Async.{AsyncWriteExt}
use jrpxy.Util.Sends.{sent_on}
use jrpxy.Util.Parse.{is_valid_field_name, is_valid_field_value, is_valid_request_target}
use jrpxy.Util.Parse.Tables.{is_valid_tchar, is_valid_field_vchar}
use jrpxy.Util.Parse.Classes.{lookups-eq-rfc, rfc_field_vchar}
use jrpxy.HttpMessage.Framing.{
  WriteFraming, chunked, preserve_framing, strip_framing, is_framing_header,
}
use jrpxy.HttpMessage.Framing
use jrpxy.HttpMessage.Header.{Field, Headers}
use jrpxy.HttpMessage.Message.{Request}
use jrpxy.HttpMessage.Heads.{head_bytes, framing_field}
use jrpxy.HttpMessage.Heads.Framed.{unframed}
use jrpxy.HttpMessage.Builder.Valid.{IsValidField}
use jrpxy.HttpMessage.Heads.Reads.{
  read_head, read_head-head_bytes, trimmed_values, not_cr, tchars-not_cr, vchars-not_cr,
}
use jrpxy.Body.Writer.Chunked
use jrpxy.Body.Writer.Chunked.Moves.{encode, in_ready, in_finish}
use jrpxy.Body.Writer.Chunked.Sends.{Run}
use jrpxy.Body.Writer.Chunked.Decodes.{decode, decode-encode}
use jrpxy.Backend.Writer.{send_as_chunked}
use jrpxy.Backend.Writer.Sends.{request_line, request_fields, sent_chunked}

-- What the builder of requests lets through (`build` in HttpMessage/Builder).
pub record IsValidRequest (r : Request) : Type 0 where
  pub method : all is_valid_tchar r.method ≡ true
  pub path : is_valid_request_target r.path ≡ true
  pub fields : All IsValidField r.headers.headers

target-not_cr : (path : Bytes) → is_valid_request_target path ≡ true → all not_cr path ≡ true
unfolding is_valid_request_target
target-not_cr [] h = refl
target-not_cr (b ∷ path) h = vchars-not_cr (b ∷ path) h

both : {a b : Bool} → a ≡ true → b ≡ true → (a && b) ≡ true
both p q = rw p q

request_line-not_cr : (r : Request) → IsValidRequest r → all not_cr (request_line r) ≡ true
request_line-not_cr r v =
    all-append not_cr r.method (codes " " ++ (r.path ++ codes " HTTP/1.1"))
    ∙ both (tchars-not_cr r.method v.method)
        (all-append not_cr r.path (codes " HTTP/1.1") ∙ both (target-not_cr r.path v.path) refl)

rfc_digit : (b : ℕ) → is_ascii_digit b ≡ true → rfc_field_vchar b ≡ true
unfolding is_ascii_digit
rfc_digit b h = ground arith

digit-IsValue : (b : ℕ) → is_ascii_digit b ≡ true → is_valid_field_vchar b ≡ true
unfolding is_ascii_digit
digit-IsValue b h = let byte : b < 256 = ground arith in (lookups-eq-rfc b byte).1 ∙ rfc_digit b h

digits-IsValue : (bs : Bytes) → all is_ascii_digit bs ≡ true → is_valid_field_value bs ≡ true
unfolding is_valid_field_value
digits-IsValue [] h = refl
digits-IsValue (b ∷ bs) h = ground (arith, digit-IsValue b, digits-IsValue bs)

framing_field-IsValidField : (f : WriteFraming) → All IsValidField (framing_field f)
unfolding is_valid_field_name is_valid_field_value is_valid_tchar is_valid_field_vchar
framing_field-IsValidField (Framing.WriteFraming.length l) =
    ((refl, digits-IsValue (to_decimal l) (to_decimal_digits l)), tt)
framing_field-IsValidField chunked = ((refl, refl), tt)
framing_field-IsValidField preserve_framing = tt
framing_field-IsValidField strip_framing = tt

fields-IsValidField :
    (fs : List Field) (f : WriteFraming)
    → All IsValidField fs
    → All IsValidField (unframed fs ++ framing_field f)
fields-IsValidField [] f h = framing_field-IsValidField f
fields-IsValidField (x ∷ fs) f h = elim (Bool-cases (is_framing_header x.0)) [
  | inl gone ↦ rw gone (fields-IsValidField fs f h.1)
  | inr kept ↦ rw kept (h.0, fields-IsValidField fs f h.1)
]

-- A valid request's head reads back, whatever follows it: as its request line, with version 1.1, and the
-- fields that were written, with the whitespace round their values taken off.
pub read_head-request :
    (r : Request) (f : WriteFraming) (k : ℕ) (rest : Bytes)
    → IsValidRequest r
    → length (request_fields r f) < k
    → read_head k (head_bytes (request_line r) (request_fields r f) ++ rest)
      ≡ some (request_line r, trimmed_values (request_fields r f), rest)
read_head-request r f k rest v lt =
    read_head-head_bytes k (request_line r) (request_fields r f) rest (request_line-not_cr r v)
      (fields-IsValidField r.headers.headers f v.fields) lt

module _ {O E : Type 0} (sink : AsyncWriteExt O E) where
  -- A valid request that has been written with chunked coding: what the sink has been sent since then reads, with
  -- enough fuel and whatever `rest` follows it, as the request line, the fields written, and a body that
  -- decodes to just what the writes took and to the trailer fields, with `rest` left over. The trailer fields
  -- are such as `push` accepts.
  pub decode-sent_chunked :
      {M : Type 0} (r : Request) (o w : O) (trailers : Headers) (rest : Bytes)
      {ready : Chunked.Ready O} {f : Chunked.Finish O} {out : Bytes}
      → IsValidRequest r
      → All IsValidField trailers.headers
      → send_as_chunked {M = M} sink r o ≡ some (ok ready)
      → Run sink.base trailers (in_ready ready) (in_finish f) out
      → Chunked.into_writer {E = E} f ≡ ok w
      → (bytes body : Bytes) × (fuel : ℕ) × (sent_on sink w ≡ sent_on sink o ++ bytes)
        × (read_head fuel (bytes ++ rest)
            ≡ some (request_line r, trimmed_values (request_fields r chunked), body))
        × (decode fuel body ≡ some (out, trimmed_values trailers.headers, rest))
  decode-sent_chunked {M} r o w trailers rest {out = out} v tv h run done =
      let (chunks, same, sent) = sent_chunked sink {M = M} r o w trailers h run done in
      let head = head_bytes (request_line r) (request_fields r chunked) in
      let body = encode chunks ++ Chunked.terminal_bytes trailers in
      let few = length (request_fields r chunked) in
      let k = suc (few + (length chunks + length trailers.headers)) in
      (
        head ++ body,
        body ++ rest,
        k,
        sent,
        ap (read_head k) (append_assoc head body rest)
            ∙ read_head-request r chunked k (body ++ rest) v (omega arith),
        ap (decode k) (append_assoc (encode chunks) (Chunked.terminal_bytes trailers) rest)
            ∙ decode-encode k chunks trailers rest tv (omega arith)
            ∙ ap (λ (x : Bytes). some (x, trimmed_values trailers.headers, rest)) same,
      )
