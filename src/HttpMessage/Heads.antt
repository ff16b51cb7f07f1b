-- ===== src/HttpMessage/Heads.antt =====
-- backend/src/writer.rs and frontend/src/writer.rs: what their two writers of heads share, the loop over
-- the fields and the framing field. The loop's `filter` is done before.
pub mod Reads
pub mod Framed
use jrpxy.Prelude.{
  List, [], ◌∷◌, ◌++◌, Bytes, codes, to_decimal, ◌≡◌, refl, sym, ◌∙◌, append-nil, append_assoc,
}
use jrpxy.Util.Async.{AsyncWriteExt}
use jrpxy.Util.Sends.{Io, ◌>>◌, skip, Sends, write_all-Sends, then-Sends, skip-Sends}
use jrpxy.HttpMessage.Framing.{WriteFraming, length, chunked, preserve_framing, strip_framing}
use jrpxy.HttpMessage.Header.{Field}

abbrev pub crlf : Bytes
crlf = codes "\r\n"

module _ {O E : Type 0} (sink : AsyncWriteExt O E) where
  unfoldable pub write_fields : List Field → Io O E
  write_fields [] = skip
  write_fields ((n, v) ∷ rest) =
      sink.write_all n
      >> sink.write_all (codes ": ")
      >> sink.write_all v
      >> sink.write_all crlf
      >> write_fields rest

  unfoldable pub write_framing_field : WriteFraming → Io O E
  write_framing_field (length l) =
      sink.write_all (codes "content-length: " ++ (to_decimal l ++ crlf))
  write_framing_field chunked = sink.write_all (codes "transfer-encoding: chunked\r\n")
  write_framing_field preserve_framing = skip
  write_framing_field strip_framing = skip

-- The lines of a head, as RFC 9112 has them.
abbrev pub field_lines : List Field → Bytes
field_lines [] = []
field_lines ((n, v) ∷ rest) = n ++ (codes ": " ++ (v ++ (crlf ++ field_lines rest)))

abbrev pub head_bytes : Bytes → List Field → Bytes
head_bytes start fields = start ++ (crlf ++ (field_lines fields ++ crlf))

-- The field that announces a framing.
abbrev pub framing_field : WriteFraming → List Field
framing_field (length l) = (codes "content-length", to_decimal l) ∷ []
framing_field chunked = (codes "transfer-encoding", codes "chunked") ∷ []
framing_field preserve_framing = []
framing_field strip_framing = []

pub field_lines-append :
    (xs ys : List Field) → field_lines (xs ++ ys) ≡ field_lines xs ++ field_lines ys
field_lines-append [] ys = refl
field_lines-append ((n, v) ∷ xs) ys = simp (field_lines-append xs ys, append_assoc)

module _ {O E : Type 0} (sink : AsyncWriteExt O E) where
  pub as_Sends : {m : Io O E} {bs cs : Bytes} → bs ≡ cs → Sends sink m bs → Sends sink m cs
  as_Sends e s = rw (← e) s

  pub write_fields-Sends : (fs : List Field) → Sends sink (write_fields sink fs) (field_lines fs)
  unfolding write_fields
  write_fields-Sends [] = skip-Sends sink
  write_fields-Sends ((n, v) ∷ fs) = as_Sends (simp append_assoc) (
      then-Sends sink
        (then-Sends sink
          (then-Sends sink
            (then-Sends sink (write_all-Sends sink n) (write_all-Sends sink (codes ": ")))
            (write_all-Sends sink v))
          (write_all-Sends sink crlf))
        (write_fields-Sends fs))

  pub write_framing_field-Sends :
      (f : WriteFraming) → Sends sink (write_framing_field sink f) (field_lines (framing_field f))
  unfolding write_framing_field
  write_framing_field-Sends (length l) =
      as_Sends (simp append-nil)
        (write_all-Sends sink (codes "content-length: " ++ (to_decimal l ++ crlf)))
  write_framing_field-Sends chunked = write_all-Sends sink (codes "transfer-encoding: chunked\r\n")
  write_framing_field-Sends preserve_framing = skip-Sends sink
  write_framing_field-Sends strip_framing = skip-Sends sink
