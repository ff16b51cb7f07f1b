-- ===== src/Frontend/Reader/Bodies/Recycles.antt =====
-- frontend/src/reader.rs: where the connection goes on after a body of known length.
use jrpxy.Prelude.{
  ℕ, ◌<◌, ◌≤◌, Bool, true, false, Option, none, some, Bytes, Result, ok, err, ◌≡◌, refl, sym, ◌∙◌,
  subst, arith, inl, inr, ◌⊎◌, ok-injective, length, if◌then◌else◌, ◌==◌,
}
use jrpxy.Util.Async.{Poll, pending, ready, AsyncRead}
use jrpxy.Util.IoBuffer.{BytesReader}
use jrpxy.Util.IoBuffer.Fills.{IsValid}
use jrpxy.Util.IoBuffer.Flows.{Flows}
use jrpxy.HttpMessage.Framing
use jrpxy.HttpMessage.Header.{framing}
use jrpxy.HttpMessage.Connection.{connection_is_persistent}
use jrpxy.HttpMessage.Message.{Request}
use jrpxy.HttpMessage.Parse.{ParseSlots, HttpParse, MessageError}
use jrpxy.Body.Error.{BodyError}
use jrpxy.Body.Reader.ContentLength.{ContentLengthBodyReader, remaining, finish}
use jrpxy.Body.Reader.ContentLength.Stream.{IsSound}
use jrpxy.Body.Reader.ContentLength.Drain.{Drains, poll_drain-Drains}
use jrpxy.Frontend.Error.{FrontendError, body_read_error}
use jrpxy.Frontend.Reader.Decides.{open_body-Accepts, Opens}
use jrpxy.Frontend.Reader.{FrontendBodyReader, open_body, FrontendReader, cl}
use jrpxy.Frontend.Reader.Bodies.{BodyPolled, recycle, drained_cl, poll_drain}

recycle_lem :
    {I : Type 0} (keep : Bool) (r : BytesReader I) (slots : ParseSlots)
    → recycle keep r slots
      ≡ (if keep then some (record { reader = r; parse_slots = slots }) else none)
unfolding recycle
recycle_lem true r slots = refl
recycle_lem false r slots = refl

-- A drain that is through has skipped all that remained of the body; the connection that it hands on, just if it is
-- to be kept, is right behind it. Any other outcome has only skipped a part.
abbrev Leaves :
    {I E M : Type 0}
    → ContentLengthBodyReader I
    → ParseSlots
    → Bool
    → BytesReader I
    → Bytes
    → Poll (Result (Option (FrontendReader I)) (FrontendError E M))
    → Type 0
Leaves s slots keep r skipped (ready (ok next)) =
    (length skipped ≡ remaining s)
    × (next ≡ (if keep then some (record { reader = r; parse_slots = slots }) else none))
Leaves s slots keep r skipped _ = length skipped ≤ remaining s

-- The same of a body of `n` bytes, by the Connection field of the request.
abbrev pub HandsOn :
    {I E M : Type 0}
    → FrontendReader I
    → Request
    → ℕ
    → BytesReader I
    → Bytes
    → Poll (Result (Option (FrontendReader I)) (FrontendError E M))
    → Type 0
HandsOn fr req n r skipped (ready (ok next)) =
    (length skipped ≡ n)
    × (((connection_is_persistent req.headers req.version ≡ ok true)
          × (next ≡ some (record { reader = r; parse_slots = fr.parse_slots })))
        ⊎ ((connection_is_persistent req.headers req.version ≡ ok false) × (next ≡ none)))
HandsOn fr req n r skipped _ = length skipped ≤ n

module _ {I E M : Type 0} (source : AsyncRead I E) where
  record Drained (s : ContentLengthBodyReader I) (slots : ParseSlots) (keep : Bool)
      (p : BodyPolled I (Option (FrontendReader I)) E M) : Type 0 where
    pub outcome : Poll (Result (Option (FrontendReader I)) (FrontendError E M))
    pub rest : ContentLengthBodyReader I
    pub returns : p ≡ some (outcome, cl rest slots keep)
    pub skipped : Bytes
    pub flows : Flows source s.reader rest.reader skipped
    pub leaves : Leaves s slots keep rest.reader skipped outcome

  cases :
      (s rest : ContentLengthBodyReader I) (slots : ParseSlots) (keep : Bool)
      (o : Poll (Result Unit (BodyError E)))
      → s.offset ≤ s.length
      → Drains source s o rest
      → Drained s slots keep (drained_cl slots keep (some (o, rest)))
  unfolding drained_cl finish
  cases s rest slots keep pending le d = record {
    outcome = pending;
    rest = rest;
    returns = refl;
    skipped = d.skipped;
    flows = d.flows;
    leaves = omega (arith, d.counts, d.same, d.within, le);
  }
  cases s rest slots keep (ready (err e)) le d = record {
    outcome = ready (err (body_read_error e));
    rest = rest;
    returns = refl;
    skipped = d.skipped;
    flows = d.flows;
    leaves = omega (arith, d.counts, d.same, d.within, le);
  }
  cases s rest slots keep (ready (ok u)) le d =
      let over : (rest.offset == rest.length) ≡ true = ground (arith, d.ends refl) in
      record {
        outcome = ready (ok (recycle keep rest.reader slots));
        rest = rest;
        returns = rw (over, drained_cl, finish) refl;
        skipped = d.skipped;
        flows = d.flows;
        leaves =
            (omega (arith, d.counts, d.same, d.ends refl, le), recycle_lem keep rest.reader slots);
      }

  of_length :
      {P : Type 0} (http : HttpParse P) (fuel : ℕ) (s : ContentLengthBodyReader I)
      (slots : ParseSlots) (keep : Bool)
      → IsSound s
      → remaining s < fuel
      → Drained s slots keep (poll_drain source http fuel (cl s slots keep))
  unfolding poll_drain
  of_length http fuel s slots keep v lt =
      let (o, rest, e, d) = poll_drain-Drains source fuel s v lt in
      rw e (cases s rest slots keep o v.within d)

module _ {I E P : Type 0} (source : AsyncRead I E) where
  -- What a drain of the body of `n` bytes of a request from `fr` comes to: it is `rest` that is polled again.
  pub record Recycles (fr : FrontendReader I) (req : Request) (n : ℕ)
      (p : BodyPolled I (Option (FrontendReader I)) E (MessageError P)) : Type 0 where
    pub outcome : Poll (Result (Option (FrontendReader I)) (FrontendError E (MessageError P)))
    pub rest : FrontendBodyReader I
    pub returns : p ≡ some (outcome, rest)
    pub skipped : Bytes
    pub reader : BytesReader I
    pub flows : Flows source fr.reader reader skipped
    pub leaves : HandsOn fr req n reader skipped outcome

  handed_on :
      (fr : FrontendReader I) (req : Request) (n : ℕ) (keep : Bool) (r : BytesReader I)
      (skipped : Bytes)
      (o : Poll (Result (Option (FrontendReader I)) (FrontendError E (MessageError P))))
      → connection_is_persistent req.headers req.version ≡ ok keep
      → Leaves
          (record { length = n; offset = 0; reader = fr.reader })
          fr.parse_slots
          keep
          r
          skipped
          o
      → HandsOn fr req n r skipped o
  handed_on fr req n keep r skipped pending is h = omega (arith, h)
  handed_on fr req n keep r skipped (ready (err e)) is h = omega (arith, h)
  handed_on fr req n true r skipped (ready (ok next)) is h = (omega (arith, h.0), inl (is, h.1))
  handed_on fr req n false r skipped (ready (ok next)) is h = (omega (arith, h.0), inr (is, h.1))

  -- A request that has been accepted with a declared length of `n` bytes: a poll that drains its body, on fuel beyond
  -- `n`, does not panic, and skips bytes of the body only. When the drain is through, it has skipped just those `n`
  -- bytes behind the head, and it hands on the connection right behind them if the Connection field of the
  -- request lets it persist, and no connection if that field does not.
  pub poll_drain-Recycles :
      (http : HttpParse P) (m c fuel n : ℕ) (fr : FrontendReader I) (req : Request)
      {b : FrontendBodyReader I}
      → IsValid fr.reader.buffer
      → open_body {E = E} {P = P} m c fr req ≡ ok b
      → framing req.headers ≡ ok (Framing.ParsedFraming.length n)
      → n < fuel
      → Recycles fr req n (poll_drain source http fuel b)
  poll_drain-Recycles http m c fuel n fr req {b} v opens declared lt =
      let a = open_body-Accepts {E = E} {P = P} m c fr req b opens in
      let same : a.parsed ≡ Framing.ParsedFraming.length n =
        ok-injective (sym a.framed ∙ declared) in
      let is : b
          ≡ cl (record { length = n; offset = 0; reader = fr.reader }) fr.parse_slots a.keep =
        subst (λ f. Opens f fr.reader fr.parse_slots c m a.keep b) same a.body in
      let d =
        of_length {M = MessageError P} source http fuel
          (record { length = n; offset = 0; reader = fr.reader }) fr.parse_slots a.keep
          (record { valid = v; within = omega arith }) (omega (arith, lt)) in
      record {
        outcome = d.outcome;
        rest = cl d.rest fr.parse_slots a.keep;
        returns =
            subst
              (λ x.
                poll_drain source http fuel x ≡ some (d.outcome, cl d.rest fr.parse_slots a.keep))
              (sym is) d.returns;
        skipped = d.skipped;
        reader = d.rest.reader;
        flows = d.flows;
        leaves = handed_on fr req n a.keep d.rest.reader d.skipped d.outcome a.persistent d.leaves;
      }
