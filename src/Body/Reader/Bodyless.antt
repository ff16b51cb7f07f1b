-- ===== src/Body/Reader/Bodyless.antt =====
-- body/src/reader/bodyless.rs
use jrpxy.Util.IoBuffer.{BytesReader}

pub record BodylessBodyReader (I : Type 0) : Type 0 where
  pub reader : BytesReader I

module _ {I : Type 0} where
  unfoldable pub new : BytesReader I → BodylessBodyReader I
  new reader = record { reader = reader }

  unfoldable pub drain : BodylessBodyReader I → BytesReader I
  drain r = r.reader
