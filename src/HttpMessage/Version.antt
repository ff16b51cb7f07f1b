-- ===== src/HttpMessage/Version.antt =====
-- http-message/src/version.rs
use jrpxy.Prelude.{ℕ, Bool, true, false, Bytes, codes, ◌==◌, if◌then◌else◌, Result, ok, err}

pub data HttpVersion : Type 0 where
  http10 http11 : HttpVersion

unfoldable pub supports_informational_response : HttpVersion → Bool
supports_informational_response http10 = false
supports_informational_response http11 = true

unfoldable pub to_static : HttpVersion → Bytes
to_static http10 = codes "HTTP/1.0"
to_static http11 = codes "HTTP/1.1"

-- `TryFrom<u8>`; the error is the value.
unfoldable pub try_from : ℕ → Result HttpVersion ℕ
try_from value = if value == 0 then ok http10 else if value == 1 then ok http11 else err value
