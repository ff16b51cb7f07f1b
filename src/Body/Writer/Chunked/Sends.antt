-- ===== src/Body/Writer/Chunked/Sends.antt =====
-- body/src/writer/chunked.rs: what the writer sends, over any sequence of its operations.
use jrpxy.Prelude.{
  ltb, not, ◌≤◌, Bool-cases, inl, inr, List, Bytes, [], ◌++◌, ◌≡◌, refl, sym, ap, ◌∙◌, arith,
  length, append-nil, ok, err-ne-ok, ok-injective,
}
use jrpxy.Util.Async.{AsyncWrite}
use jrpxy.HttpMessage.Header.{Headers}
use jrpxy.Body.Error.{BodyError, incomplete_finish, unflushed_finish}
use jrpxy.Body.Writer.Chunked.{Finish, new, into_writer, terminal_bytes}
use jrpxy.Body.Writer.Chunked.Moves.{Writer, in_ready, in_finish, encode, concat, Holds, Step}
use jrpxy.Body.Writer.Chunked.Steps.{Step-Holds, all_gone}

module _ {O E : Type 0} (sink : AsyncWrite O E) (trailers : Headers) where
  -- Moves in a row, with all the body bytes that they take.
  pub data Run (s : Writer O) : Writer O → Bytes → Type 0 where
    start : Run s s []
    move :
        {t u : Writer O} {out bs out' : Bytes}
        → Run s t out
        → Step sink trailers t bs u
        → out' ≡ out ++ bs
        → Run s u out'

  Run-Holds :
      (before : Bytes) {s t : Writer O} {out : Bytes}
      → Holds sink trailers before [] s
      → Run s t out
      → Holds sink trailers before out t
  Run-Holds before h start = h
  Run-Holds before h (move {out = out} r step e) =
      rw e (Step-Holds sink trailers before out step (Run-Holds before h r))

  new-Holds : (writer : O) → Holds sink trailers (sink.sent writer) [] (in_ready (new writer))
  unfolding new
  new-Holds writer = record {
    closed = [];
    current = [];
    body = refl;
    wire = (sym (append-nil (sink.sent writer)), refl);
  }

  finished :
      (f : Finish O) (w : O)
      → into_writer {E = E} f ≡ ok w
      → (length f.terminal ≤ f.written) × (f.writer ≡ w)
  unfolding into_writer
  finished f w h = elim (Bool-cases (ltb f.written (length f.terminal))) [
    | inl a ↦ absurd (
        err-ne-ok {E = BodyError E} {e = incomplete_finish (length f.terminal) f.written} {a = w}
          (rw (← h, into_writer, a) refl))
    | inr a ↦ elim (Bool-cases (not f.flushed)) [
      | inl b ↦ absurd (
          err-ne-ok {E = BodyError E} {e = unflushed_finish} {a = w}
            (rw (← h, into_writer, a, b) refl))
      | inr b ↦ (ground arith, ok-injective {E = BodyError E} (rw (← h, into_writer, a, b) refl))
    ]
  ]

  -- However the sink cuts the writes: when the writer is finished and gives the sink back, the sink has been
  -- sent the body that the writes took, cut into chunks, each as its size in hexadecimal, CRLF, its data and
  -- CRLF (an empty chunk as nothing), and behind them the last chunk with the trailer fields.
  pub chunked_body :
      (writer w : O) {f : Finish O} {out : Bytes}
      → Run (in_ready (new writer)) (in_finish f) out
      → into_writer {E = E} f ≡ ok w
      → (chunks : List Bytes) × (concat chunks ≡ out)
        × (sink.sent w ≡ (sink.sent writer ++ encode chunks) ++ terminal_bytes trailers)
  chunked_body writer w {f} {out} r h =
      let holds = Run-Holds (sink.sent writer) (new-Holds writer) r in
      let (sent, le, none_open) = holds.wire in
      let (all_sent, same) = finished f w h in
      (
        holds.closed,
        sym (
            holds.body
            ∙ ap (◌++◌ (concat holds.closed)) none_open
            ∙ append-nil (concat holds.closed)),
        sym (ap (λ x. sink.sent x) same)
            ∙ all_gone sink trailers (sink.sent f.writer) f.terminal _ f.written all_sent sent,
      )
