-- ===== src/HttpMessage/Parse/Head.antt =====
-- frontend/src/reader.rs and backend/src/reader.rs: the loop of `head`, which is the same in both but for the type
-- of its errors and for what it parses: FrontendReader::head has parse_request, BackendReader::head has
-- parse_response. A poll that is pending goes on with the read; that the model parses the
-- same data once more before makes no difference. A round that goes on has read at least one byte, and there is
-- none when there are as many as the maximum, so fuel beyond the maximum is enough.
use jrpxy.Prelude.{
  ℕ, zero, suc, ◌+◌, ◌-◌, ◌<◌, Bool, leb, ◌==◌, if◌then◌else◌, Option, none, some, Bytes, [],
  Result, ok, err, ◌≡◌, refl, arith, Bool-cases, inl, inr,
}
use jrpxy.Util.Async.{Poll, pending, ready, AsyncRead}
use jrpxy.Util.IoBuffer.{BytesReader, len, do_fill}
use jrpxy.Util.IoBuffer.Fills.{IsValid, do_fill-Gains, do_fill-length, Gains-len}
use jrpxy.Util.IoBuffer.Flows.{Flows, Flows-refl, Flows-trans, Flows-of-Gains, Flows-of-CutsTo}
use jrpxy.HttpMessage.Parse.{Parsed, MessageError}
use jrpxy.HttpMessage.Parse.Cuts.{Taken, taken, waits, fails}

pub data HeadError (E P : Type 0) : Type 0 where
  parse_failed : MessageError P → HeadError E P
  too_long : ℕ → ℕ → HeadError E P
  read_failed : E → HeadError E P
  first_read_eof unexpected_eof : HeadError E P

abbrev pub HeadPolled : Type 0 → Type 0 → Type 0 → Type 0 → Type 0
HeadPolled I A E P = Option (Poll (Result A (HeadError E P)) × BytesReader I)

-- Only a head that has been read leaves the reader; `Made` says what is made of it.
abbrev pub LeavesBy :
    {A E P : Type 0} → (Bytes → A → Type 0) → Poll (Result A (HeadError E P)) → Bytes → Type 0
LeavesBy Made (ready (ok a)) head = Made head a
LeavesBy Made _ head = head ≡ []

module _ {I A E P : Type 0} where
  -- What follows the read; `k` is the next round.
  unfoldable pub head_read :
      (BytesReader I → HeadPolled I A E P)
      → Bool
      → Poll (Result ℕ E)
      → BytesReader I
      → HeadPolled I A E P
  head_read k first_read pending r = some (pending, r)
  head_read k first_read (ready (err e)) r = some (ready (err (read_failed e)), r)
  head_read k first_read (ready (ok zero)) r =
      some (ready (err (if first_read then first_read_eof else unexpected_eof)), r)
  head_read k first_read (ready (ok (suc n))) r = k r

  -- What follows the parse.
  unfoldable pub head_parsed :
      AsyncRead I E → (BytesReader I → HeadPolled I A E P) → ℕ → Parsed I A P → HeadPolled I A E P
  unfolding head_read
  head_parsed source k max none = none
  head_parsed source k max (some (err e, r)) = some (ready (err (parse_failed e)), r)
  head_parsed source k max (some (ok (some a), r)) = some (ready (ok a), r)
  head_parsed source k max (some (ok none, r)) =
      let (outcome, r') = do_fill source (max - len r) r in
      let read = head_read k (len r == 0) outcome r' in
      if leb max (len r) then some (ready (err (too_long (len r) max)), r) else read

  unfoldable pub poll_head :
      AsyncRead I E → (BytesReader I → Parsed I A P) → ℕ → ℕ → BytesReader I → HeadPolled I A E P
  unfolding head_parsed
  poll_head source parse zero max r = none
  poll_head source parse (suc fuel) max r =
      head_parsed source (poll_head source parse fuel max) max (parse r)

module _ {I A E P : Type 0} (source : AsyncRead I E) (Made : Bytes → A → Type 0) where
  pub record Ended (r : BytesReader I) (o : HeadPolled I A E P) : Type 0 where
    pub outcome : Poll (Result A (HeadError E P))
    pub reader : BytesReader I
    pub returns : o ≡ some (outcome, reader)
    pub head : Bytes
    pub flows : Flows source r reader head
    pub leaves : LeavesBy Made outcome head

module _ {I A E P : Type 0} (source : AsyncRead I E) (Made : Bytes → A → Type 0)
    (parse : BytesReader I → Parsed I A P)
    (parses : (r : BytesReader I) → IsValid r.buffer → Taken Made r (parse r)) where
  stops :
      (r r' : BytesReader I) (e : HeadError E P)
      → Flows source r r' []
      → Ended source Made r (some (ready (err e), r'))
  stops r r' e f = record {
    outcome = ready (err e);
    reader = r';
    returns = refl;
    head = [];
    flows = f;
    leaves = refl;
  }

  Ended-trans :
      {r r' : BytesReader I} {o : HeadPolled I A E P}
      → Flows source r r' []
      → Ended source Made r' o
      → Ended source Made r o
  Ended-trans f d = record {
    outcome = d.outcome;
    reader = d.reader;
    returns = d.returns;
    head = d.head;
    flows = Flows-trans source f d.flows;
    leaves = d.leaves;
  }

  head_read-Ended :
      (k : BytesReader I → HeadPolled I A E P) (first_read : Bool) (p : Poll (Result ℕ E))
      (r r' : BytesReader I)
      → Flows source r r' []
      → ((n : ℕ) → p ≡ ready (ok (suc n)) → Ended source Made r' (k r'))
      → Ended source Made r (head_read k first_read p r')
  unfolding head_read
  head_read-Ended k first_read pending r r' f next = record {
    outcome = pending;
    reader = r';
    returns = refl;
    head = [];
    flows = f;
    leaves = refl;
  }
  head_read-Ended k first_read (ready (err e)) r r' f next = stops r r' (read_failed e) f
  head_read-Ended k first_read (ready (ok zero)) r r' f next = stops r r' _ f
  head_read-Ended k first_read (ready (ok (suc n))) r r' f next = Ended-trans f (next n refl)

  head_parsed-Ended :
      (k : BytesReader I → HeadPolled I A E P) (max : ℕ) (r : BytesReader I) (p : Parsed I A P)
      → IsValid r.buffer
      → ((r' : BytesReader I)
          → IsValid r'.buffer
          → len r < len r'
          → len r < max
          → Ended source Made r' (k r'))
      → Taken Made r p
      → Ended source Made r (head_parsed source k max p)
  unfolding head_parsed
  head_parsed-Ended k max r p v next (taken a head r' cuts e made) = rw e (record {
    outcome = ready (ok a);
    reader = r';
    returns = refl;
    head = head;
    flows = Flows-of-CutsTo source cuts;
    leaves = made;
  })
  head_parsed-Ended k max r p v next (fails x e) =
      rw e (stops r r (parse_failed x) (Flows-refl source r v))
  head_parsed-Ended k max r p v next (waits e) =
      let gains = do_fill-Gains source (max - len r) r v in
      elim (Bool-cases (leb max (len r))) [
        | inl full ↦
            rw (e, head_parsed) (rw full (stops r r (too_long (len r) max) (Flows-refl source r v)))
        | inr room ↦
            rw (e, head_parsed)
              (rw room (
                head_read-Ended k (len r == 0) (do_fill source (max - len r) r).0 r
                  (do_fill source (max - len r) r).1 (Flows-of-Gains source gains)
                  (λ n h.
                    next (do_fill source (max - len r) r).1 gains.valid
                      (omega
                        (arith, Gains-len source v gains, do_fill-length source (max - len r) r h))
                      (ground arith))))
      ]

  -- From a valid reader, the loop ends within the fuel without a panic, for any source, if the parse does. What it
  -- takes off the stream is the head that was parsed, if it returns one, and else nothing.
  pub poll_head-Ended :
      (fuel max : ℕ) (r : BytesReader I)
      → IsValid r.buffer
      → max < len r + fuel
      → 0 < fuel
      → Ended source Made r (poll_head source parse fuel max r)
  unfolding poll_head
  poll_head-Ended zero max r v enough pos = absurd (omega (arith, pos))
  poll_head-Ended (suc fuel) max r v enough pos =
      head_parsed-Ended (poll_head source parse fuel max) max r (parse r) v
        (λ r' v' more room.
          poll_head-Ended fuel max r' v' (omega (arith, enough, more))
            (omega (arith, enough, more, room)))
        (parses r v)
