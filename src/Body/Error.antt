-- ===== src/Body/Error.antt =====
-- body/src/error.rs. The errors of the source are a parameter; those that httparse reports for a
-- chunk header or a trailer field carry no data here.
use jrpxy.Prelude.{ℕ}
use jrpxy.Util.IoBuffer.{ReaderBufferError, io_error}

pub data TrailerError : Type 0 where
  invalid_field too_many_fields : TrailerError
  max_length_exceeded : ℕ → TrailerError

pub data BodyError (E : Type 0) : Type 0 where
  body_overflow : ℕ → BodyError E
  body_write_error body_read_error : E → BodyError E
  incomplete_body : ℕ → ℕ → BodyError E
  invalid_chunk_header : BodyError E
  chunk_header_too_long : ℕ → BodyError E
  incomplete_chunk_header incomplete_chunk_footer incomplete_finish : ℕ → ℕ → BodyError E
  unflushed_finish unflushed_abort : BodyError E
  trailer_error : TrailerError → BodyError E
  unexpected_eof : BodyError E
  invalid_chunk_footer : ℕ → ℕ → BodyError E
  read_after_error write_after_error forward_after_error : BodyError E

-- `From<ReaderBufferError>`
unfoldable pub body_error : {E : Type 0} → ReaderBufferError E → BodyError E
body_error (io_error e) = body_read_error e
body_error ReaderBufferError.unexpected_eof = BodyError.unexpected_eof
