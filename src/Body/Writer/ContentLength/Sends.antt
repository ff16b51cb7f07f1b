-- ===== src/Body/Writer/ContentLength/Sends.antt =====
-- body/src/writer/content_length.rs: what the writer sends, over any sequence of its operations.
use jrpxy.Prelude.{
  ℕ, ◌+◌, ◌≤◌, Bytes, [], ◌++◌, ◌≡◌, refl, sym, ap, ◌∙◌, arith, length, length-append, append-nil,
  append_assoc, subst,
}
use jrpxy.Util.Async.{AsyncWrite}
use jrpxy.Body.Writer.ContentLength.{Finish, new}
use jrpxy.Body.Writer.ContentLength.Moves.{
  Writer, in_ready, in_open, in_write, in_close, in_finish, in_abort, sink_of, Counts, Step, Kept,
  Step-Kept,
}

Counts-le : {O : Type 0} (total n : ℕ) (s : Writer O) → Counts total n s → n ≤ total
Counts-le total n (in_ready s) c = c.2
Counts-le total n (in_open s) c = omega (arith, c.2)
Counts-le total n (in_write s) c = omega (arith, c.1, c.2, c.3)
Counts-le total n (in_close s) c = c.2
Counts-le total n (in_finish s) c = omega (arith, c)
Counts-le total n (in_abort s) c = c

module _ {O E : Type 0} (sink : AsyncWrite O E) where
  -- Moves in a row, with all the bytes that they send.
  pub data Run (s : Writer O) : Writer O → Bytes → Type 0 where
    start : Run s s []
    move :
        {t u : Writer O} {out bs out' : Bytes}
        → Run s t out
        → Step sink t bs u
        → out' ≡ out ++ bs
        → Run s u out'

  Run-Kept :
      (total : ℕ) {s t : Writer O} {out : Bytes}
      → Counts total 0 s
      → Run s t out
      → Kept sink total 0 s out t
  Run-Kept total {s} c start = record {
    counts = c;
    sends = sym (append-nil (sink.sent (sink_of s)));
  }
  Run-Kept total {s} c (move {u = u} {out = out} {bs = bs} r step e) =
      let run = Run-Kept total c r in
      let kept = Step-Kept sink total (0 + length out) step run.counts in
      let sum : 0 + length out + length bs ≡ 0 + length (out ++ bs) =
        omega (arith, length-append out bs) in
      rw e (record {
        counts = subst (λ n. Counts total n u) sum kept.counts;
        sends =
            kept.sends
            ∙ ap (λ (x : Bytes). x ++ bs) run.sends
            ∙ append_assoc (sink.sent (sink_of s)) out bs;
      })

  -- However the sink cuts the writes: at any time the writer has sent at most the declared length, and once
  -- it is finished exactly that. What the sink took is what the writes report, in order.
  pub sent_body :
      (writer : O) (total : ℕ) {t : Writer O} {out : Bytes}
      → Run (in_ready (new writer total)) t out
      → (sink.sent (sink_of t) ≡ sink.sent writer ++ out)
        × (length out ≤ total)
        × ((f : Finish O) → t ≡ in_finish f → length out ≡ total)
  unfolding new
  sent_body writer total {t} {out} r =
      let kept = Run-Kept total (refl, refl, omega arith) r in
      (
        kept.sends,
        omega (arith, Counts-le total (0 + length out) t kept.counts),
        λ f e. omega (arith, subst (λ x. Counts total (0 + length out) x) e kept.counts),
      )
