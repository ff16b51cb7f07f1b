-- ===== src/Proxy/Options.antt =====
-- proxy/src/options.rs. The setters of the builder are the updates of its fields.
pub mod Valid
use jrpxy.Prelude.{
  ℕ, Bytes, Bool, not, if◌then◌else◌, [], ◌∷◌, Option, none, some, Result, ok, err, ◌>>=◌, ◌>>◌,
  codes, ◌≡◌, ◌≢◌, ◌↔◌, refl, true, false, all, arith, Bool-cases, inl, inr,
}
use jrpxy.Util.Parse.Tables.{is_valid_tchar}
use jrpxy.Proxy.Error.{ProxyOptionsError, empty_received_by, illegal_received_by_byte}

pub record ProxyOptions : Type 0 where
  pub max_backend_head_length : ℕ
  pub max_chunk_header_length : ℕ
  pub body_chunk_size : ℕ
  pub received_by : Bytes

-- `ProxyOptionsBuilder::default`; the builder has the fields of the options.
abbrev pub default : ProxyOptions
default = record {
  max_backend_head_length = 8192;
  max_chunk_header_length = 8192;
  body_chunk_size = 8192;
  received_by = codes "jrpxy";
}

-- `find(|&&b| !is_valid_tchar(b))`
pub find_illegal : Bytes → Option ℕ
find_illegal [] = none
find_illegal (b ∷ r) = if not (is_valid_tchar b) then some b else find_illegal r

pub validate_received_by : Bytes → Result Unit ProxyOptionsError
unfolding find_illegal
validate_received_by [] = err empty_received_by
validate_received_by (b ∷ r) = elim (find_illegal (b ∷ r)) [
  | some byte ↦ err (illegal_received_by_byte byte)
  | none ↦ ok tt
]

unfoldable pub build : ProxyOptions → Result ProxyOptions ProxyOptionsError
unfolding validate_received_by
build o = do validate_received_by o.received_by; ok o
