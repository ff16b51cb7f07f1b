-- ===== src/Proxy/Response/Final.antt =====
-- proxy/src/lib.rs: the header fields of a final response that is forwarded, and what of them the writer of the head
-- leaves as it is.
use jrpxy.Prelude.{
  Bool, ◌&&◌, not, any, is_empty, if◌then◌else◌, List, [], ◌∷◌, ◌++◌, Bytes, codes, ◌≡◌, refl, ap,
  ◌∙◌, arith, append_assoc, append-nil, inl, inr, Bool-cases, keep_if, keep_if-append,
  keep_if_twice, keep_if-ext, eq_ignore_ascii_case, eq_ignore_ascii_case_comm,
}
use jrpxy.HttpMessage.Version.{HttpVersion, http10, http11}
use jrpxy.HttpMessage.Framing.{
  ParsedFraming, WriteFraming, chunked, no_framing, preserve_framing, strip_framing,
  preserves_framing, is_framing_header,
}
use jrpxy.HttpMessage.Framing
use jrpxy.HttpMessage.Header.{Field, get_header, push_raw}
use jrpxy.HttpMessage.Header.Framed.{is_cl, is_te}
use jrpxy.HttpMessage.Message.{Response}
use jrpxy.HttpMessage.Heads.{framing_field}
use jrpxy.HttpMessage.Heads.Framed.{unframed}
use jrpxy.Frontend.Writer.Sends.{response_fields}
use jrpxy.Proxy.Request.{PendingFrontendResponse}
use jrpxy.Proxy.Fields.{via_version, insert_proxy_headers, insert_date_header_if_absent}
use jrpxy.Proxy.Response.{stamped}

-- `received-protocol` of a Via field.
abbrev pub protocol : HttpVersion → Bytes
protocol http10 = codes "1.0 "
protocol http11 = codes "1.1 "

abbrev pub is_date : Field → Bool
is_date f = eq_ignore_ascii_case (codes "date") f.0

-- The fields of the response in their order, a Via field with the name of the proxy behind them, and behind that a
-- Date field if the response has none.
abbrev pub final_fields : Bytes → Bytes → Response → List Field
final_fields now received_by r =
    r.headers.headers
    ++ (codes "Via", protocol r.version ++ received_by)
      ∷ (if any is_date r.headers.headers then [] else (codes "Date", now) ∷ [])

-- The fields that do not announce a framing.
abbrev pub others : List Field → List Field
others fs = keep_if (λ f. not (is_cl f) && not (is_te f)) fs

is_empty-keep_if : (p : Field → Bool) (fs : List Field) → not (is_empty (keep_if p fs)) ≡ any p fs
is_empty-keep_if p [] = refl
is_empty-keep_if p (f ∷ fs) = elim (Bool-cases (p f)) [
  | inl h ↦ rw h refl
  | inr h ↦ rw h (is_empty-keep_if p fs)
]

with_via :
    (v : Bytes) (fs : List Field)
    → not (is_empty (keep_if is_date (fs ++ (codes "Via", v) ∷ []))) ≡ any is_date fs
unfolding eq_ignore_ascii_case
with_via v fs =
    ap (λ (xs : List Field). not (is_empty xs))
      (keep_if-append is_date fs ((codes "Via", v) ∷ []) ∙ append-nil (keep_if is_date fs))
    ∙ is_empty-keep_if is_date fs

protocol_of :
    (version : HttpVersion) (by : Bytes)
    → via_version version ++ codes " " ++ by ≡ protocol version ++ by
unfolding via_version
protocol_of http10 by = refl
protocol_of http11 by = refl

pub stamped-final_fields :
    {O : Type 0} (now : Bytes) (pending : PendingFrontendResponse O) (response : Response)
    → (stamped now pending response).headers.headers
      ≡ final_fields now pending.options.received_by response
unfolding stamped insert_proxy_headers insert_date_header_if_absent get_header push_raw
stamped-final_fields now pending response =
    let by = pending.options.received_by in
    let fs = response.headers.headers in
    rw (protocol_of response.version by, with_via (protocol response.version ++ by) fs)
      (elim (Bool-cases (any is_date fs)) [
        | inl h ↦ rw h refl
        | inr h ↦ rw h (
            append_assoc fs ((codes "Via", protocol response.version ++ by) ∷ [])
              ((codes "Date", now) ∷ []))
      ])

others-unframed : (f : Field) → not (is_framing_header f.0) ≡ not (is_cl f) && not (is_te f)
unfolding is_framing_header
others-unframed f = ground (
  arith,
  eq_ignore_ascii_case_comm f.0 (codes "content-length"),
  eq_ignore_ascii_case_comm f.0 (codes "transfer-encoding"),
)

others-framing_field : (f : WriteFraming) → others (framing_field f) ≡ []
unfolding eq_ignore_ascii_case
others-framing_field (Framing.WriteFraming.length l) = refl
others-framing_field chunked = refl
others-framing_field preserve_framing = refl
others-framing_field strip_framing = refl

others-written :
    (fs : List Field) (f : WriteFraming) → others (unframed fs ++ framing_field f) ≡ others fs
others-written fs f =
    let p : Field → Bool = λ g. not (is_cl g) && not (is_te g) in
    let same : unframed fs ≡ others fs =
      keep_if-ext (λ g. not (is_framing_header g.0)) p fs others-unframed in
    keep_if-append p (unframed fs) (framing_field f)
    ∙ rw (others-framing_field f)
        (append-nil (others (unframed fs)) ∙ ap others same ∙ keep_if_twice p fs)

pub others-response_fields :
    (r : Response) (f : WriteFraming) → others (response_fields r f) ≡ others r.headers.headers
others-response_fields r (Framing.WriteFraming.length l) =
    others-written r.headers.headers (Framing.WriteFraming.length l)
others-response_fields r chunked = others-written r.headers.headers chunked
others-response_fields r preserve_framing = refl
others-response_fields r strip_framing = others-written r.headers.headers strip_framing
