-- ===== src/Body/Reader/Eof/Stream.antt =====
-- body/src/reader/eof.rs: the body is all that comes.
use jrpxy.Prelude.{
  ℕ, zero, suc, ◌==◌, Bool, true, false, if◌then◌else◌, Option, none, some, Bytes, min, Result, ok,
  err, [], ◌++◌, ◌≡◌, refl, sym, ◌∙◌, arith, Bool-cases, inl, inr, subst, some-injective,
  append-nil,
}
use jrpxy.Util.Async.{Poll, pending, ready, AsyncRead}
use jrpxy.Util.IoBuffer.{BytesReader, as_bytes, len, do_fill}
use jrpxy.Util.IoBuffer.Fills.{IsValid, do_fill-Gains, do_fill-length, Gains-len}
use jrpxy.Util.IoBuffer.Cuts.{split_to-CutsTo}
use jrpxy.Util.IoBuffer.Flows.{Flows, Flows-refl, Flows-trans, Flows-of-CutsTo, Flows-of-Gains}
use jrpxy.Body.Error.{BodyError}
use jrpxy.Body.Reader.{Polled}
use jrpxy.Body.Reader.ContentLength.Stream.{body_of}
use jrpxy.Body.Reader.Eof.{EofBodyReader, drained, new, take_buffered, after_read, poll_read}

-- At the end nothing is left in the buffer.
pub record IsSound {I : Type 0} (s : EofBodyReader I) : Type 0 where
  pub valid : IsValid s.reader.buffer
  pub at_end : s.eof ≡ true → len s.reader ≡ 0

if_false : {A : Type 0} (c : Bool) (x y : A) → c ≡ false → (if c then x else y) ≡ y
if_false true x y h = cc
if_false false x y h = refl

if_true : {A : Type 0} (c : Bool) (x y : A) → c ≡ true → (if c then x else y) ≡ x
if_true true x y h = refl
if_true false x y h = cc

dry : {I : Type 0} (s : EofBodyReader I) → (len s.reader == 0) ≡ true → len s.reader ≡ 0
dry s h = ground arith

module _ {I E : Type 0} (source : AsyncRead I E) where
  -- One poll.
  pub record Step (s s' : EofBodyReader I) (o : Poll (Result (Option Bytes) (BodyError E)))
      : Type 0 where
    pub flows : Flows source s.reader s'.reader (body_of o)
    pub at_end : s'.eof ≡ true → len s'.reader ≡ 0
    pub ends : o ≡ ready (ok none) → s'.eof ≡ true

  abbrev pub Steps : EofBodyReader I → Polled (EofBodyReader I) (Option Bytes) E → Type 0
  Steps s polled =
      (o : Poll (Result (Option Bytes) (BodyError E))) × (s' : EofBodyReader I) × (polled
        ≡ some (o, s'))
      × Step s s' o

  take_buffered-Steps :
      (max_len : ℕ) (s s0 : EofBodyReader I)
      → s.eof ≡ false
      → IsValid s.reader.buffer
      → Flows source s0.reader s.reader []
      → Steps s0 (take_buffered max_len s)
  unfolding take_buffered
  take_buffered-Steps max_len s s0 open_still v f =
      let (bs, r', e, cuts, count, left) =
        split_to-CutsTo s.reader v (min (len s.reader) max_len) (omega arith) in
      (
        ready (ok (some bs)),
        record s { reader = r' },
        rw (take_buffered, e) refl,
        record {
          flows = Flows-trans source f (Flows-of-CutsTo source cuts);
          at_end = λ q. cc;
          ends = λ q. cc;
        },
      )

  after_read-Steps :
      (max_len : ℕ) (s : EofBodyReader I) (r : BytesReader I) (p : Poll (Result ℕ E))
      → s.eof ≡ false
      → Flows source s.reader r []
      → (p ≡ ready (ok 0) → len r ≡ 0)
      → Steps s (after_read max_len (record s { reader = r }) p)
  unfolding after_read
  after_read-Steps max_len s r pending open_still f dry = (
    pending,
    record s { reader = r },
    refl,
    record { flows = f; at_end = λ q. cc; ends = λ q. cc },
  )
  after_read-Steps max_len s r (ready (err e)) open_still f dry =
      (_, record s { reader = r }, refl, record { flows = f; at_end = λ q. cc; ends = λ q. cc })
  after_read-Steps max_len s r (ready (ok zero)) open_still f dry = (
    _,
    record s { reader = r; eof = true },
    refl,
    record { flows = f; at_end = λ q. dry refl; ends = λ q. refl },
  )
  after_read-Steps max_len s r (ready (ok (suc n))) open_still f dry =
      take_buffered-Steps max_len (record s { reader = r }) s open_still f.valid f

  -- A poll of a sound reader does not panic.
  pub poll_read-Steps :
      (max_len : ℕ) (s : EofBodyReader I) → IsSound s → Steps s (poll_read source max_len s)
  unfolding poll_read
  poll_read-Steps max_len s v = elim (Bool-cases s.eof) [
    | inl e ↦ (
      ready (ok none),
      s,
      rw (poll_read, e) refl,
      record { flows = Flows-refl source s.reader v.valid; at_end = v.at_end; ends = λ q. e },
    )
    | inr e ↦ elim (Bool-cases (len s.reader == 0)) [
      | inl h ↦
          let gains = do_fill-Gains source max_len s.reader v.valid in
          let count = Gains-len source v.valid gains in
          let (o, s', q, step) =
            after_read-Steps max_len s (do_fill source max_len s.reader).1
              (do_fill source max_len s.reader).0 e (Flows-of-Gains source gains)
              (λ q.
                let added = do_fill-length source max_len s.reader q in
                omega (arith, count, added, dry s h)) in
          (o, s', if_false s.eof _ _ e ∙ if_true (len s.reader == 0) _ _ h ∙ q, step)
      | inr h ↦
          let (o, s', q, step) =
            take_buffered-Steps max_len s s e v.valid (Flows-refl source s.reader v.valid) in
          (o, s', if_false s.eof _ _ e ∙ if_false (len s.reader == 0) _ _ h ∙ q, step)
    ]
  ]

  Step-of :
      (max_len : ℕ) {s u : EofBodyReader I} {o : Poll (Result (Option Bytes) (BodyError E))}
      → IsSound s
      → poll_read source max_len s ≡ some (o, u)
      → Step s u o
  Step-of max_len {s} v h =
      let (o', u', e, step) = poll_read-Steps max_len s v in
      subst (λ p. Step s p.1 p.0) (some-injective _ _ (sym e ∙ h)) step

  -- Polls in a row, with any lengths asked for; `out` is all that they have returned.
  pub data Reads (s : EofBodyReader I) : EofBodyReader I → Bytes → Type 0 where
    start : Reads s s []
    poll :
        (max_len : ℕ) {t u : EofBodyReader I} {o : Poll (Result (Option Bytes) (BodyError E))}
        {out out' : Bytes}
        → Reads s t out
        → poll_read source max_len t ≡ some (o, u)
        → out' ≡ out ++ body_of o
        → Reads s u out'

  record Run (s t : EofBodyReader I) (out : Bytes) : Type 0 where
    sound : IsSound t
    flows : Flows source s.reader t.reader out

  Reads-Run : {s t : EofBodyReader I} {out : Bytes} → IsSound s → Reads s t out → Run s t out
  Reads-Run {s} v start = record { sound = v; flows = Flows-refl source s.reader v.valid }
  Reads-Run v (poll max_len {o = o} {out = out} r h e) =
      let run = Reads-Run v r in
      let step = Step-of max_len run.sound h in
      rw e (record {
        sound = record { valid = step.flows.valid; at_end = step.at_end };
        flows = Flows-trans source run.flows step.flows;
      })

  -- From a reader with a valid buffer, however the source cuts the stream, and whatever lengths are asked for: the polls return a front part
  -- of what was buffered and what arrived, in order, and the rest is in the buffer. When the reader is
  -- drained there is no rest: all of it has been returned.
  pub drained_body :
      (r : BytesReader I) {t : EofBodyReader I} {out : Bytes}
      → IsValid r.buffer
      → Reads (new r) t out
      → (arrived : Bytes) × (source.received t.reader.io ≡ source.received r.io ++ arrived)
        × (as_bytes r ++ arrived ≡ out ++ as_bytes t.reader)
        × (drained t ≡ true → as_bytes r ++ arrived ≡ out)
  unfolding new
  drained_body r {t} {out} v reads =
      let run = Reads-Run (record { valid = v; at_end = λ e. cc }) reads in
      (
        run.flows.arrived,
        run.flows.arrives,
        run.flows.flow,
        λ e. run.flows.flow ∙ rw (run.sound.at_end e) (append-nil out),
      )
