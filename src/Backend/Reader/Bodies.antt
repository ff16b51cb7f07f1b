-- ===== src/Backend/Reader/Bodies.antt =====
-- backend/src/reader.rs: `read` and `drain` of a body reader, as polls. A poll that panics, or whose loop runs out
-- of the fuel, has no result (`none`). `drain` gives the reader of the connection back.
use jrpxy.Prelude.{ℕ, Bool, not, Option, none, some, Bytes, Result, ok, err, map_err, if◌then◌else◌}
use jrpxy.Util.Async.{Poll, pending, ready, AsyncRead}
use jrpxy.Util.IoBuffer.{BytesReader}
use jrpxy.HttpMessage.Header.{Headers}
use jrpxy.HttpMessage.Parse.{ParseSlots, HttpParse}
use jrpxy.Body.Error.{BodyError}
use jrpxy.Body.Reader.{Polled}
use jrpxy.Body.Reader.ContentLength
use jrpxy.Body.Reader.ContentLength.{ContentLengthBodyReader}
use jrpxy.Body.Reader.Chunked
use jrpxy.Body.Reader.Chunked.{ChunkedBodyReader}
use jrpxy.Body.Reader.Chunked.Polls
use jrpxy.Body.Reader.Bodyless
use jrpxy.Body.Reader.Eof
use jrpxy.Backend.Error.{BackendError, body_read_error}
use jrpxy.Backend.Reader.{BackendReader, BackendBodyReader, bodyless, cl, te, eof}

-- The poll of a body of the connection: its outcome, and the body reader.
abbrev pub BodyPolled : Type 0 → Type 0 → Type 0 → Type 0 → Type 0
BodyPolled I A E M = Option (Poll (Result A (BackendError E M)) × BackendBodyReader I)

-- `.map_err(BackendError::BodyReadError)` on a poll.
abbrev pub outcome_of :
    {A E M : Type 0} → Poll (Result A (BodyError E)) → Poll (Result A (BackendError E M))
outcome_of pending = pending
outcome_of (ready r) = ready (map_err body_read_error r)

-- The connection, if it is to be reused.
unfoldable pub recycle : {I : Type 0} → Bool → BytesReader I → ParseSlots → Option (BackendReader I)
recycle recyclable reader parse_slots =
    if not recyclable then none else some (record { reader = reader; parse_slots = parse_slots })

module _ {I E M : Type 0} where
  unfoldable pub wrap :
      {S A : Type 0} → (S → BackendBodyReader I) → Polled S A E → BodyPolled I A E M
  wrap back none = none
  wrap back (some (o, s)) = some (outcome_of o, back s)

  -- What follows the drain of a body of known length.
  unfoldable pub drained_cl :
      ParseSlots
      → Bool
      → Polled (ContentLengthBodyReader I) Unit E
      → BodyPolled I (Option (BackendReader I)) E M
  unfolding recycle
  drained_cl slots keep none = none
  drained_cl slots keep (some (pending, r)) = some (pending, cl r slots keep)
  drained_cl slots keep (some (ready (err e), r)) =
      some (ready (err (body_read_error e)), cl r slots keep)
  drained_cl slots keep (some (ready (ok _), r)) = elim (ContentLength.finish r) [
    | none ↦ none
    | some reader ↦ some (ready (ok (recycle keep reader slots)), cl r slots keep)
  ]

  -- What follows the drain of chunks, the trailer fields with it.
  unfoldable pub drained_te :
      Bool
      → Polled (ChunkedBodyReader I) Unit E
      → BodyPolled I (Option (BackendReader I) × Headers) E M
  unfolding recycle
  drained_te keep none = none
  drained_te keep (some (pending, r)) = some (pending, te r keep)
  drained_te keep (some (ready (err e), r)) = some (ready (err (body_read_error e)), te r keep)
  drained_te keep (some (ready (ok _), r)) = elim (Chunked.finish r) [
    | none ↦ none
    | some (reader, slots, trailers) ↦
        some (ready (ok (recycle keep reader slots, trailers)), te r keep)
  ]

  -- `let (reader, _trailers) = …`
  unfoldable pub without_trailers :
      BodyPolled I (Option (BackendReader I) × Headers) E M
      → BodyPolled I (Option (BackendReader I)) E M
  without_trailers none = none
  without_trailers (some (pending, b)) = some (pending, b)
  without_trailers (some (ready (err e), b)) = some (ready (err e), b)
  without_trailers (some (ready (ok (next, _)), b)) = some (ready (ok next), b)

module _ {I E M P : Type 0} (source : AsyncRead I E) (http : HttpParse P) where
  unfoldable pub poll_read : ℕ → ℕ → BackendBodyReader I → BodyPolled I (Option Bytes) E M
  unfolding wrap
  poll_read fuel max_len (bodyless r slots keep) = some (ready (ok none), bodyless r slots keep)
  poll_read fuel max_len (cl r slots keep) =
      wrap (λ s. cl s slots keep) (ContentLength.poll_read source max_len r)
  poll_read fuel max_len (te r keep) =
      wrap (λ s. te s keep) (Polls.poll_read source http fuel max_len r)
  poll_read fuel max_len (eof r slots) = wrap (λ s. eof s slots) (Eof.poll_read source max_len r)

  unfoldable pub poll_drain : ℕ → BackendBodyReader I → BodyPolled I (Option (BackendReader I)) E M
  unfolding recycle drained_cl drained_te without_trailers
  poll_drain fuel (bodyless r slots keep) =
      some (ready (ok (recycle keep (Bodyless.drain r) slots)), bodyless r slots keep)
  poll_drain fuel (cl r slots keep) = drained_cl slots keep (ContentLength.poll_drain source fuel r)
  poll_drain fuel (te r keep) =
      without_trailers (drained_te keep (Polls.poll_drain source http fuel r))
  poll_drain fuel (eof r slots) = some (ready (ok none), eof r slots)
