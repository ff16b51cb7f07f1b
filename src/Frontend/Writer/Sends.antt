-- ===== src/Frontend/Writer/Sends.antt =====
-- frontend/src/writer.rs: what a response head is on the wire, and the framing that its recipient reads.
use jrpxy.Prelude.{
  true, List, [], ◌∷◌, Bytes, codes, to_decimal, ◌++◌, ◌≡◌, refl, ap, ◌∙◌, append_assoc, append-nil,
  ok, keep_if, if◌then◌else◌,
}
use jrpxy.Util.Async.{AsyncWriteExt}
use jrpxy.Util.Sends.{Delivers, Sends-Delivers, Sends, write_all-Sends, flush-Sends, then-Sends}
use jrpxy.HttpMessage.Framing.{
  WriteFraming, length, chunked, preserve_framing, strip_framing, preserves_framing,
}
use jrpxy.HttpMessage.Header.{Field, framing}
use jrpxy.HttpMessage.Message.{Response}
use jrpxy.HttpMessage.Heads.{
  crlf, head_bytes, field_lines-append, framing_field, write_fields-Sends,
  write_framing_field-Sends, as_Sends,
}
use jrpxy.HttpMessage.Heads.Framed.{unframed, announced, Fits, framing-written}
use jrpxy.Frontend.Writer.{write_response_to, response_filter}

-- `status-line` of RFC 9112 section 4, without its CRLF.
abbrev pub status_line : Response → Bytes
status_line r = codes "HTTP/1.1 " ++ (to_decimal r.code ++ (codes " " ++ r.reason))

-- The fields that are written: all of them if the framing is preserved.
abbrev pub response_fields : Response → WriteFraming → List Field
response_fields r preserve_framing = r.headers.headers
response_fields r f = unframed r.headers.headers ++ framing_field f

keep_if_all : (fs : List Field) → keep_if (λ _. true) fs ≡ fs
keep_if_all [] = refl
keep_if_all (f ∷ fs) = ap (◌∷◌ f) (keep_if_all fs)

filter-fields :
    (r : Response) (f : WriteFraming)
    → response_filter f r.headers.headers ++ framing_field f ≡ response_fields r f
unfolding preserves_framing
filter-fields r (length l) = refl
filter-fields r chunked = refl
filter-fields r preserve_framing = rw (keep_if_all r.headers.headers) (append-nil r.headers.headers)
filter-fields r strip_framing = refl

module _ {O E : Type 0} (sink : AsyncWriteExt O E) where
  pub write_response_to-Sends :
      (r : Response) (f : WriteFraming)
      → Sends sink (write_response_to sink r f) (head_bytes (status_line r) (response_fields r f))
  unfolding write_response_to
  write_response_to-Sends r f =
      let w = write_all-Sends sink in
      let kept = response_filter f r.headers.headers in
      let line =
        then-Sends sink
          (then-Sends sink
            (then-Sends sink
              (then-Sends sink (then-Sends sink (w (codes "HTTP/1.1")) (w (codes " ")))
                (w (to_decimal r.code)))
              (w (codes " ")))
            (w r.reason))
          (w crlf) in
      as_Sends sink
        (rw (← filter-fields r f)
          (rw (field_lines-append kept (framing_field f)) (simp (append_assoc, append-nil))))
        (then-Sends sink
          (then-Sends sink
            (then-Sends sink (then-Sends sink line (write_fields-Sends sink kept))
              (write_framing_field-Sends sink f))
            (w crlf))
          (flush-Sends sink))

  -- A response head on the wire is the status line with version 1.1, the fields, and the empty line. The fields
  -- are those of the response if the framing is preserved, and otherwise those that do not frame and the
  -- field of the chosen framing, if any. That is sent if the write succeeds, and otherwise a front part of it.
  pub write_response_to-Delivers :
      (r : Response) (framing : WriteFraming) (o : O)
      → Delivers sink o
          (head_bytes (status_line r) (response_fields r framing))
          (write_response_to sink r framing o)
  write_response_to-Delivers r framing o = Sends-Delivers sink (write_response_to-Sends r framing) o

pub by_choice :
    (r : Response) (f : WriteFraming)
    → Fits f
    → framing (record { headers = response_fields r f })
      ≡ (if preserves_framing f then framing r.headers else ok (announced f))
unfolding preserves_framing
by_choice r (length l) fits = framing-written r.headers.headers (length l) fits
by_choice r chunked fits = framing-written r.headers.headers chunked fits
by_choice r preserve_framing fits = refl
by_choice r strip_framing fits = framing-written r.headers.headers strip_framing fits

-- The recipient reads the framing that the writer chose, whatever fields the response had; if the framing is
-- preserved, it reads what the response's own fields say. A length must fit 64 bits.
pub framing-response_fields :
    (r : Response) (f : WriteFraming)
    → Fits f
    → framing (record { headers = response_filter f r.headers.headers ++ framing_field f })
      ≡ (if preserves_framing f then framing r.headers else ok (announced f))
framing-response_fields r f fits =
    ap (λ (fs : List Field). framing (record { headers = fs })) (filter-fields r f)
    ∙ by_choice r f fits
