-- ===== src/Body/Writer/Chunked/Moves.antt =====
-- body/src/writer/chunked.rs: the moves of the writer, each by what it sends.
use jrpxy.Prelude.{
  ℕ, ◌≤◌, List, ◌∷◌, some, Bytes, codes, Result, ok, [], ◌++◌, ◌≡◌, sym, ap, ◌∙◌, length, drop,
  append-nil, append_assoc, if◌then◌else◌,
}
use jrpxy.Util.Async.{Poll, AsyncWrite, accepted}
use jrpxy.HttpMessage.Header.{Headers}
use jrpxy.Body.Error.{BodyError}
use jrpxy.Body.Writer.Chunked.{
  Ready, Open, Write, Close, Finish, Abort, chunk_header, footer_of, terminal_bytes, open_chunk,
  finish_with_trailers, abort, into_write, into_close, into_ready, poll_open, poll_write,
  poll_close, poll_finish, poll_abort,
}

pub data Writer (O : Type 0) : Type 0 where
  in_ready : Ready O → Writer O
  in_open : Open O → Writer O
  in_write : Write O → Writer O
  in_close : Close O → Writer O
  in_finish : Finish O → Writer O
  in_abort : Abort O → Writer O

-- A chunk on the wire, by the length and the data.
abbrev pub encode_chunk : Bytes → Bytes
encode_chunk c = chunk_header (length c) ++ (c ++ footer_of (length c))

abbrev pub encode : List Bytes → Bytes
encode [] = []
encode (c ∷ cs) = encode_chunk c ++ encode cs

abbrev pub concat : List Bytes → Bytes
concat [] = []
concat (c ∷ cs) = c ++ concat cs

pub encode-snoc :
    (cs : List Bytes) (c : Bytes) → encode (cs ++ c ∷ []) ≡ encode cs ++ encode_chunk c
encode-snoc [] c = append-nil (encode_chunk c)
encode-snoc (d ∷ cs) c =
    ap (◌++◌ (encode_chunk d)) (encode-snoc cs c)
    ∙ sym (append_assoc (encode_chunk d) (encode cs) (encode_chunk c))

pub concat-snoc : (cs : List Bytes) (c : Bytes) → concat (cs ++ c ∷ []) ≡ concat cs ++ c
concat-snoc [] c = append-nil c
concat-snoc (d ∷ cs) c = ap (◌++◌ d) (concat-snoc cs c) ∙ sym (append_assoc d (concat cs) c)

module _ {O E : Type 0} (sink : AsyncWrite O E) (trailers : Headers) where
  -- `done` are the chunks that are closed, and `cur` is what has been written of the open one. Each state
  -- says what the sink has been sent and what it is still to be sent.
  abbrev pub Wire : Bytes → List Bytes → Bytes → Writer O → Type 0
  Wire before done cur (in_ready s) = (sink.sent s.writer ≡ before ++ encode done) × (cur ≡ [])
  Wire before done cur (in_open s) =
      (sink.sent s.writer ++ drop s.written s.header
        ≡ (before ++ encode done) ++ chunk_header s.chunk_length)
      × (s.written ≤ length s.header)
      × (cur ≡ [])
  Wire before done cur (in_write s) =
      (sink.sent s.writer ≡ ((before ++ encode done) ++ chunk_header s.chunk_length) ++ cur)
      × (s.chunk_offset ≡ length cur)
      × (s.chunk_offset ≤ s.chunk_length)
  Wire before done cur (in_close s) =
      (sink.sent s.writer ++ drop s.footer_written s.footer ≡ before ++ encode done)
      × (s.footer_written ≤ length s.footer)
      × (cur ≡ [])
  Wire before done cur (in_finish s) =
      (sink.sent s.writer ++ drop s.written s.terminal
        ≡ (before ++ encode done) ++ terminal_bytes trailers)
      × (s.written ≤ length s.terminal)
      × (cur ≡ [])
  Wire before done cur (in_abort s) =
      (sink.sent s.writer ≡ (before ++ encode done) ++ (if s.written then codes "x" else []))
      × (cur ≡ [])

  -- The body so far is the closed chunks and what has been written of the open one.
  pub record Holds (before out : Bytes) (s : Writer O) : Type 0 where
    pub closed : List Bytes
    pub current : Bytes
    pub body : out ≡ concat closed ++ current
    pub wire : Wire before closed current s

  -- A move of the writer, with the body bytes that it takes.
  pub data Step : Writer O → Bytes → Writer O → Type 0 where
    opens : (n : ℕ) {r : Ready O} → Step (in_ready r) [] (in_open (open_chunk n r))
    sends_header :
        {o o' : Open O} {p : Poll (Result Unit (BodyError E))}
        → poll_open sink o ≡ some (p, o')
        → Step (in_open o) [] (in_open o')
    starts :
        {o : Open O} {w : Write O} → into_write {E = E} o ≡ ok w → Step (in_open o) [] (in_write w)
    writes :
        (buffer : Bytes) {w : Write O}
        → Step
            (in_write w)
            (accepted (poll_write sink buffer w).0 buffer)
            (in_write (poll_write sink buffer w).1)
    closes :
        {w : Write O} {c : Close O}
        → into_close {E = E} w ≡ ok c
        → Step (in_write w) [] (in_close c)
    sends_footer :
        {c c' : Close O} {p : Poll (Result Unit (BodyError E))}
        → poll_close sink c ≡ some (p, c')
        → Step (in_close c) [] (in_close c')
    returns :
        {c : Close O} {r : Ready O}
        → into_ready {E = E} c ≡ ok r
        → Step (in_close c) [] (in_ready r)
    finishes : {r : Ready O} → Step (in_ready r) [] (in_finish (finish_with_trailers trailers r))
    sends_terminal :
        {f f' : Finish O} {p : Poll (Result Unit (BodyError E))}
        → poll_finish sink f ≡ some (p, f')
        → Step (in_finish f) [] (in_finish f')
    aborts : {r : Ready O} → Step (in_ready r) [] (in_abort (abort r))
    sends_abort : {a : Abort O} → Step (in_abort a) [] (in_abort (poll_abort sink a).1)
