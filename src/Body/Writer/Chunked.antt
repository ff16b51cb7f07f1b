-- ===== src/Body/Writer/Chunked.antt =====
-- body/src/writer/chunked.rs: the states of the writer and the moves between them. `header` and `footer` are
-- the first `header_len` and `footer_len` bytes of the source's arrays; the others are never read.
pub mod Moves
pub mod Turns
pub mod Steps
pub mod Sends
pub mod Decodes
use jrpxy.Prelude.{
  ℕ, zero, suc, Bool, true, false, not, List, [], ◌∷◌, ◌++◌, Option, none, some, Bytes, codes,
  Result, ok, err, ltb, ◌==◌, if◌then◌else◌, length, to_hex,
}
use jrpxy.Util.Async.{Poll, pending, ready, AsyncWrite}
use jrpxy.HttpMessage.Header.{Field, Headers}
use jrpxy.HttpMessage.Header
use jrpxy.Body.Error.{
  BodyError, incomplete_body, incomplete_chunk_header, incomplete_chunk_footer, incomplete_finish,
  unflushed_finish, unflushed_abort, body_write_error,
}
use jrpxy.Body.Writer.{poll_write_bounded}
use jrpxy.Body.Writer.ContentLength.{flush_outcome}
use jrpxy.Body.Writer.Loop.{Progress, poll_send}

abbrev pub chunk_footer : Bytes
chunk_footer = codes "\r\n"

pub record Ready (O : Type 0) : Type 0 where
  pub writer : O

pub record Open (O : Type 0) : Type 0 where
  pub writer : O
  pub header : Bytes
  pub written : ℕ
  pub chunk_length : ℕ

pub record Write (O : Type 0) : Type 0 where
  pub writer : O
  pub chunk_length : ℕ
  pub chunk_offset : ℕ

pub record Close (O : Type 0) : Type 0 where
  pub writer : O
  pub footer : Bytes
  pub footer_written : ℕ

-- `terminal` is the source's `data`.
pub record Finish (O : Type 0) : Type 0 where
  pub writer : O
  pub terminal : Bytes
  pub written : ℕ
  pub flushed : Bool

pub record Abort (O : Type 0) : Type 0 where
  pub writer : O
  pub written : Bool
  pub flushed : Bool

-- What `Open::new` formats.
unfoldable pub chunk_header : ℕ → Bytes
chunk_header n = if n == 0 then [] else to_hex n ++ codes "\r\n"

unfoldable pub footer_of : ℕ → Bytes
footer_of n = if n == 0 then [] else chunk_footer

unfoldable pub trailer_lines : List Field → Bytes
trailer_lines [] = []
trailer_lines ((name, value) ∷ rest) =
    name ++ (codes ": " ++ (value ++ (codes "\r\n" ++ trailer_lines rest)))

-- What `Finish::new` serializes.
unfoldable pub terminal_bytes : Headers → Bytes
unfolding trailer_lines
terminal_bytes trailers = codes "0\r\n" ++ (trailer_lines trailers.headers ++ codes "\r\n")

module _ {O : Type 0} where
  unfoldable pub new : O → Ready O
  new writer = record { writer = writer }

  -- `open` of the source is `open_chunk`.
  unfoldable pub open_chunk : ℕ → Ready O → Open O
  unfolding chunk_header
  open_chunk length r = record {
    writer = r.writer;
    header = chunk_header length;
    written = 0;
    chunk_length = length;
  }

  unfoldable pub finish_with_trailers : Headers → Ready O → Finish O
  unfolding terminal_bytes
  finish_with_trailers trailers r = record {
    writer = r.writer;
    terminal = terminal_bytes trailers;
    written = 0;
    flushed = false;
  }

  unfoldable pub finish : Ready O → Finish O
  unfolding finish_with_trailers
  finish r = finish_with_trailers Header.new r

  unfoldable pub abort : Ready O → Abort O
  abort r = record { writer = r.writer; written = false; flushed = false }

module _ {O E : Type 0} where
  unfoldable pub into_write : Open O → Result (Write O) (BodyError E)
  into_write o =
      if ltb o.written (length o.header)
      then err (incomplete_chunk_header (length o.header) o.written)
      else ok (record { writer = o.writer; chunk_length = o.chunk_length; chunk_offset = 0 })

  unfoldable pub into_close : Write O → Result (Close O) (BodyError E)
  unfolding footer_of
  into_close w =
      if ltb w.chunk_offset w.chunk_length
      then err (incomplete_body w.chunk_length w.chunk_offset)
      else ok (record { writer = w.writer; footer = footer_of w.chunk_length; footer_written = 0 })

  unfoldable pub into_ready : Close O → Result (Ready O) (BodyError E)
  into_ready c =
      if ltb c.footer_written (length c.footer)
      then err (incomplete_chunk_footer (length c.footer) c.footer_written)
      else ok (record { writer = c.writer })

  unfoldable pub into_writer : Finish O → Result O (BodyError E)
  into_writer f =
      if ltb f.written (length f.terminal)
      then err (incomplete_finish (length f.terminal) f.written)
      else if not f.flushed
      then err unflushed_finish
      else ok f.writer

  unfoldable pub discard : Abort O → Result Unit (BodyError E)
  discard a = if not a.flushed then err unflushed_abort else ok tt

module _ {O E : Type 0} (sink : AsyncWrite O E) where
  unfoldable pub poll_open : Open O → Option (Poll (Result Unit (BodyError E)) × Open O)
  poll_open o = elim (poll_send sink (suc (length o.header)) o.header o.written o.writer) [
    | none ↦ none
    | some (outcome, written, writer) ↦
        some (outcome, record o { writer = writer; written = written })
  ]

  unfoldable pub poll_write : Bytes → Write O → Poll (Result ℕ (BodyError E)) × Write O
  poll_write buffer w =
      let (outcome, chunk_offset, writer) =
        poll_write_bounded sink w.chunk_length w.chunk_offset buffer w.writer in
      (outcome, record w { writer = writer; chunk_offset = chunk_offset })

  unfoldable pub poll_close : Close O → Option (Poll (Result Unit (BodyError E)) × Close O)
  poll_close c = elim (poll_send sink (suc (length c.footer)) c.footer c.footer_written c.writer) [
    | none ↦ none
    | some (outcome, written, writer) ↦
        some (outcome, record c { writer = writer; footer_written = written })
  ]

  unfoldable pub finish_flush : Finish O → Poll (Result Unit (BodyError E)) × Finish O
  unfolding flush_outcome
  finish_flush f =
      let (outcome, writer) = sink.poll_flush f.writer in
      let (result, flushed) = flush_outcome f.flushed outcome in
      (result, record f { writer = writer; flushed = flushed })

  -- `ready!` returns while the write is pending.
  unfoldable pub finish_sent :
      Poll (Result Unit (BodyError E)) → Finish O → Poll (Result Unit (BodyError E)) × Finish O
  unfolding finish_flush
  finish_sent (ready (ok _)) f = finish_flush f
  finish_sent outcome f = (outcome, f)

  unfoldable pub poll_finish : Finish O → Option (Poll (Result Unit (BodyError E)) × Finish O)
  unfolding finish_sent
  poll_finish f = elim (poll_send sink (suc (length f.terminal)) f.terminal f.written f.writer) [
    | none ↦ none
    | some (outcome, written, writer) ↦
        some (finish_sent outcome (record f { writer = writer; written = written }))
  ]

  unfoldable pub abort_flush : Abort O → Poll (Result Unit (BodyError E)) × Abort O
  unfolding flush_outcome
  abort_flush a =
      let (outcome, writer) = sink.poll_flush a.writer in
      let (result, flushed) = flush_outcome a.flushed outcome in
      (result, record a { writer = writer; flushed = flushed })

  -- What follows the poll for the byte `x`.
  unfoldable pub abort_sent :
      Poll (Result ℕ E) → Abort O → Poll (Result Unit (BodyError E)) × Abort O
  unfolding abort_flush
  abort_sent pending a = (pending, a)
  abort_sent (ready (err e)) a = (ready (err (body_write_error e)), a)
  abort_sent (ready (ok zero)) a = (ready (err (body_write_error sink.write_zero)), a)
  abort_sent (ready (ok (suc n))) a = abort_flush (record a { written = true })

  unfoldable pub poll_abort : Abort O → Poll (Result Unit (BodyError E)) × Abort O
  unfolding abort_sent
  poll_abort a =
      let (outcome, writer) = sink.poll_write a.writer (codes "x") in
      if not a.written then abort_sent outcome (record a { writer = writer }) else abort_flush a
