-- ===== src/HttpMessage/Framing.antt =====
-- http-message/src/framing.rs
use jrpxy.Prelude.{ℕ, Bool, true, false, List, [], ◌∷◌, Bytes, codes, any, eq_ignore_ascii_case}

pub data ParsedFraming : Type 0 where
  length : ℕ → ParsedFraming
  chunked no_framing : ParsedFraming

unfoldable pub is_no_framing : ParsedFraming → Bool
is_no_framing no_framing = true
is_no_framing _ = false

pub data WriteFraming : Type 0 where
  length : ℕ → WriteFraming
  chunked preserve_framing strip_framing : WriteFraming

unfoldable pub preserves_framing : WriteFraming → Bool
preserves_framing preserve_framing = true
preserves_framing _ = false

-- `From<ParsedFraming> for WriteFraming`
unfoldable pub write_framing : ParsedFraming → WriteFraming
write_framing (length l) = length l
write_framing chunked = chunked
write_framing no_framing = preserve_framing

abbrev framing_headers : List Bytes
framing_headers = codes "content-length" ∷ codes "transfer-encoding" ∷ []

unfoldable pub is_framing_header : Bytes → Bool
is_framing_header name = any (λ h. eq_ignore_ascii_case h name) framing_headers
