-- ===== src/Body/Reader/ContentLength/Stream.antt =====
-- body/src/reader/content_length.rs: the body is the next `length` bytes of the stream.
use jrpxy.Prelude.{
  ℕ, ◌+◌, ◌≤◌, ◌<◌, false, ◌==◌, ltb, Option, none, some, Bytes, min, Result, ok, err, [], ◌++◌,
  ◌≡◌, refl, sym, ◌∙◌, arith, Bool-cases, inl, inr, length, length-append, subst, some-injective,
}
use jrpxy.Util.Async.{Poll, pending, ready, AsyncRead}
use jrpxy.Util.IoBuffer.{BytesReader, as_bytes, len}
use jrpxy.Util.IoBuffer.Fills.{IsValid}
use jrpxy.Util.IoBuffer.Cuts.{split_to-CutsTo}
use jrpxy.Util.IoBuffer.Flows.{Flows, Flows-refl, Flows-trans, Flows-of-CutsTo}
use jrpxy.Body.Error.{BodyError}
use jrpxy.Body.Reader.{poll_ensure}
use jrpxy.Body.Reader.Ensures.{poll_ensure-Flows, poll_ensure-ok}
use jrpxy.Body.Reader.ContentLength.{
  ContentLengthBodyReader, new, remaining, finish, after_ensure, poll_read,
}

-- The body bytes that a poll returns.
abbrev pub body_of : {E : Type 0} → Poll (Result (Option Bytes) (BodyError E)) → Bytes
body_of (ready (ok (some bs))) = bs
body_of _ = []

pub record IsSound {I : Type 0} (s : ContentLengthBodyReader I) : Type 0 where
  pub valid : IsValid s.reader.buffer
  pub within : s.offset ≤ s.length

-- The amount taken at once.
abbrev amount : {I : Type 0} → ContentLengthBodyReader I → BytesReader I → ℕ → ℕ
amount s r max_len = min (min (remaining s) (len r)) max_len

amount-le-len :
    {I : Type 0} (s : ContentLengthBodyReader I) (r : BytesReader I) (m : ℕ) → amount s r m ≤ len r
amount-le-len s r m = omega arith

amount-le-remaining :
    {I : Type 0} (s : ContentLengthBodyReader I) (r : BytesReader I) (m : ℕ)
    → amount s r m ≤ remaining s
amount-le-remaining s r m = omega arith

not_over : {I : Type 0} (s : ContentLengthBodyReader I) → IsSound s → ltb s.length s.offset ≡ false
not_over s v = ground (arith, v.within)

module _ {I E : Type 0} (source : AsyncRead I E) where
  -- One poll: what it returns is counted, and flows out of the stream.
  pub record Step (max_len : ℕ) (s s' : ContentLengthBodyReader I)
      (o : Poll (Result (Option Bytes) (BodyError E))) : Type 0 where
    pub flows : Flows source s.reader s'.reader (body_of o)
    pub counts : s'.offset ≡ s.offset + length (body_of o)
    pub same : s'.length ≡ s.length
    pub within : s'.offset ≤ s'.length
    pub moves : (bs : Bytes) → o ≡ ready (ok (some bs)) → 0 < max_len → 0 < length bs
    pub ends : o ≡ ready (ok none) → s'.offset ≡ s'.length

  after_ensure-Step :
      (max_len : ℕ) (s : ContentLengthBodyReader I) (r : BytesReader I)
      (p : Poll (Result Unit (BodyError E)))
      → IsSound s
      → 0 < remaining s
      → Flows source s.reader r []
      → (p ≡ ready (ok tt) → 0 < len r)
      → (o : Poll (Result (Option Bytes) (BodyError E))) × (s' : ContentLengthBodyReader I)
        × (after_ensure max_len (record s { reader = r }) p ≡ some (o, s'))
        × Step max_len s s' o
  unfolding after_ensure
  after_ensure-Step max_len s r pending v more f lt = (
    pending,
    record s { reader = r },
    refl,
    record {
      flows = f;
      counts = omega arith;
      same = refl;
      within = v.within;
      moves = λ bs e. cc;
      ends = λ e. cc;
    },
  )
  after_ensure-Step max_len s r (ready (err e)) v more f lt = (
    ready (err e),
    record s { reader = r },
    refl,
    record {
      flows = f;
      counts = omega arith;
      same = refl;
      within = v.within;
      moves = λ bs e. cc;
      ends = λ e. cc;
    },
  )
  after_ensure-Step max_len s r (ready (ok _)) v more f lt =
      let at = amount s r max_len in
      let (bs, r', e, cuts, count, left) =
        split_to-CutsTo r f.valid at (amount-le-len s r max_len) in
      (
        ready (ok (some bs)),
        record s { offset = s.offset + at; reader = r' },
        rw (e, after_ensure),
        record {
          flows = Flows-trans source f (Flows-of-CutsTo source cuts);
          counts = omega arith;
          same = refl;
          within = omega (arith, v.within, amount-le-remaining s r max_len);
          moves =
              λ cs q pos. let equal : bs ≡ cs = cc in rw (← equal) (omega (arith, count, lt refl));
          ends = λ q. cc;
        },
      )

  -- A poll of a sound reader does not panic.
  pub poll_read-Step :
      (max_len : ℕ) (s : ContentLengthBodyReader I)
      → IsSound s
      → (o : Poll (Result (Option Bytes) (BodyError E))) × (s' : ContentLengthBodyReader I)
        × (poll_read source max_len s ≡ some (o, s'))
        × Step max_len s s' o
  unfolding poll_read
  poll_read-Step max_len s v = elim (Bool-cases (remaining s == 0)) [
    | inl h ↦ (
      ready (ok none),
      s,
      rw (not_over s v, h),
      record {
        flows = Flows-refl source s.reader v.valid;
        counts = omega arith;
        same = refl;
        within = v.within;
        moves = λ bs e. cc;
        ends = λ e. ground (arith, v.within);
      },
    )
    | inr h ↦
        let (o, s', e, step) =
          after_ensure-Step max_len s (poll_ensure source s.reader).1
            (poll_ensure source s.reader).0 v (ground arith)
            (poll_ensure-Flows source s.reader v.valid) (poll_ensure-ok source s.reader v.valid) in
        (o, s', rw (not_over s v, h) e, step)
  ]

  pub Step-of :
      {max_len : ℕ} {s u : ContentLengthBodyReader I}
      {o : Poll (Result (Option Bytes) (BodyError E))}
      → IsSound s
      → poll_read source max_len s ≡ some (o, u)
      → Step max_len s u o
  Step-of {max_len} {s} v h =
      let (o', u', e, step) = poll_read-Step max_len s v in
      subst (λ p. Step max_len s p.1 p.0) (some-injective _ _ (sym e ∙ h)) step

  -- Polls in a row, with any lengths asked for; `out` is all that they have returned.
  pub data Reads (s : ContentLengthBodyReader I) : ContentLengthBodyReader I → Bytes → Type 0 where
    start : Reads s s []
    poll :
        (max_len : ℕ) {t u : ContentLengthBodyReader I}
        {o : Poll (Result (Option Bytes) (BodyError E))} {out out' : Bytes}
        → Reads s t out
        → poll_read source max_len t ≡ some (o, u)
        → out' ≡ out ++ body_of o
        → Reads s u out'

  -- What polls in a row have done.
  record Run (s t : ContentLengthBodyReader I) (out : Bytes) : Type 0 where
    sound : IsSound t
    flows : Flows source s.reader t.reader out
    counts : t.offset ≡ s.offset + length out
    same : t.length ≡ s.length

  Reads-Run :
      {s t : ContentLengthBodyReader I} {out : Bytes} → IsSound s → Reads s t out → Run s t out
  Reads-Run {s} v start = record {
    sound = v;
    flows = Flows-refl source s.reader v.valid;
    counts = omega arith;
    same = refl;
  }
  Reads-Run v (poll max_len {o = o} {out = out} r h e) =
      let run = Reads-Run v r in
      let step = Step-of run.sound h in
      rw e (record {
        sound = record { valid = step.flows.valid; within = step.within };
        flows = Flows-trans source run.flows step.flows;
        counts = omega (arith, step.counts, run.counts, length-append out (body_of o));
        same = step.same ∙ run.same;
      })

  finish-ok :
      (t : ContentLengthBodyReader I) {r' : BytesReader I}
      → finish t ≡ some r'
      → (t.offset ≡ t.length) × (t.reader ≡ r')
  unfolding finish
  finish-ok t h = elim (Bool-cases (t.offset == t.length)) [
    | inl e ↦ (ground arith, some-injective _ _ (rw (← h, e)))
    | inr e ↦ ground arith
  ]

  -- From a reader with a valid buffer, however the source cuts the stream, and whatever lengths are asked for: when the reader can be
  -- finished, the polls have returned the next `n` bytes of the stream (what was buffered, then what
  -- arrived), and the reader handed on holds what comes right behind them.
  pub finish_body :
      (n : ℕ) (r : BytesReader I) {r' : BytesReader I} {t : ContentLengthBodyReader I} {out : Bytes}
      → IsValid r.buffer
      → Reads (new n r) t out
      → finish t ≡ some r'
      → (length out ≡ n)
        × (arrived : Bytes) × (source.received r'.io ≡ source.received r.io ++ arrived)
        × (as_bytes r ++ arrived ≡ out ++ as_bytes r')
  unfolding new
  finish_body n r {t = t} {out = out} v reads h =
      let run = Reads-Run (record { valid = v; within = omega arith }) reads in
      let (whole, same) = finish-ok t h in
      let flows = subst (λ x. Flows source r x out) same run.flows in
      (omega (arith, run.counts, run.same, whole), flows.arrived, flows.arrives, flows.flow)
