-- ===== src/Body/Reader/ContentLength/Drain.antt =====
-- body/src/reader/content_length.rs: the drain of a body by `poll_drain`.
use jrpxy.Prelude.{
  ℕ, zero, suc, ◌+◌, ◌≤◌, ◌<◌, Option, none, some, Bytes, Result, ok, err, ◌++◌, ◌≡◌, refl, ap, ◌∙◌,
  arith, length, length-append,
}
use jrpxy.Util.Async.{Poll, pending, ready, AsyncRead}
use jrpxy.Util.IoBuffer.Flows.{Flows, Flows-trans}
use jrpxy.Body.Error.{BodyError}
use jrpxy.Body.Reader.{drain_size}
use jrpxy.Body.Reader.ContentLength.{ContentLengthBodyReader, remaining, poll_read, poll_drain}
use jrpxy.Body.Reader.ContentLength.Stream.{IsSound, Step, body_of, poll_read-Step}

module _ {I E : Type 0} (source : AsyncRead I E) where
  -- A drain returns, and what it took is a part of the body; on success all of the body is taken.
  pub record Drains (s : ContentLengthBodyReader I) (o : Poll (Result Unit (BodyError E)))
      (s' : ContentLengthBodyReader I) : Type 0 where
    pub skipped : Bytes
    pub flows : Flows source s.reader s'.reader skipped
    pub counts : s'.offset ≡ s.offset + length skipped
    pub same : s'.length ≡ s.length
    pub within : s'.offset ≤ s'.length
    pub ends : o ≡ ready (ok tt) → s'.offset ≡ s'.length

  -- That a drain on this fuel returns.
  abbrev pub Drained : ℕ → ContentLengthBodyReader I → Type 0
  Drained fuel s =
      (o : Poll (Result Unit (BodyError E))) × (s' : ContentLengthBodyReader I) × (poll_drain source
          fuel s
        ≡ some (o, s'))
      × Drains s o s'

  Step-Drains :
      {s s' : ContentLengthBodyReader I} {o : Poll (Result (Option Bytes) (BodyError E))}
      {p : Poll (Result Unit (BodyError E))}
      → Step source drain_size s s' o
      → (p ≡ ready (ok tt) → o ≡ ready (ok none))
      → Drains s p s'
  Step-Drains {o = o} step whole = record {
    skipped = body_of o;
    flows = step.flows;
    counts = step.counts;
    same = step.same;
    within = step.within;
    ends = λ e. step.ends (whole e);
  }

  after_poll :
      (fuel : ℕ) (s s' : ContentLengthBodyReader I) (o : Poll (Result (Option Bytes) (BodyError E)))
      → poll_read source drain_size s ≡ some (o, s')
      → Step source drain_size s s' o
      → ((bs : Bytes) → o ≡ ready (ok (some bs)) → Drained fuel s')
      → Drained (suc fuel) s
  unfolding poll_drain
  after_poll fuel s s' pending e step rest =
      (pending, s', rw (poll_drain, e), Step-Drains step (λ h. cc))
  after_poll fuel s s' (ready (err x)) e step rest =
      (ready (err x), s', rw (poll_drain, e), Step-Drains step (λ h. cc))
  after_poll fuel s s' (ready (ok none)) e step rest =
      (ready (ok tt), s', rw (poll_drain, e), Step-Drains step (λ h. refl))
  after_poll fuel s s' (ready (ok (some bs))) e step rest =
      let (o, s'', e', d) = rest bs refl in
      (
        o,
        s'',
        rw (poll_drain, e) e',
        record {
          skipped = bs ++ d.skipped;
          flows = Flows-trans source step.flows d.flows;
          counts = omega (arith, step.counts, d.counts, length-append bs d.skipped);
          same = d.same ∙ step.same;
          within = d.within;
          ends = d.ends;
        },
      )

  -- A drain of a sound reader does not panic, and takes at most one poll of the reader for each byte
  -- that remains, and one more. It takes bytes of the body only; when it reports success, the whole
  -- body is taken and the reader is right behind it.
  pub poll_drain-Drains :
      (fuel : ℕ) (s : ContentLengthBodyReader I) → IsSound s → remaining s < fuel → Drained fuel s
  poll_drain-Drains zero s v lt = absurd (omega arith)
  poll_drain-Drains (suc fuel) s v lt =
      let (o, s', e, step) = poll_read-Step source drain_size s v in
      after_poll fuel s s' o e step (λ bs h.
        poll_drain-Drains fuel s' (record { valid = step.flows.valid; within = step.within })
          (omega (
            arith,
            step.counts,
            step.same,
            step.within,
            step.moves bs h (omega arith),
            ap (λ p. length (body_of p)) h,
            lt,
          )))
