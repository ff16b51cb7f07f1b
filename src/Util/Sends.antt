-- ===== src/Util/Sends.antt =====
-- A chain of awaited writes: each may fail, and then the later ones are not made. What such a chain puts on the sink.
use jrpxy.Prelude.{
  Bytes, Result, ok, err, [], ◌++◌, ◌≡◌, refl, sym, ap, ◌∙◌, take, drop, take-append-drop,
  append-nil, append_assoc, err-ne-ok,
}
use jrpxy.Util.Async.{AsyncWrite, AsyncWriteExt}

-- The outcome, and the sink.
abbrev pub Io : Type 0 → Type 0 → Type 0
Io O E = O → Result Unit E × O

module _ {O E : Type 0} where
  abbrev pub after : Result Unit E × O → Io O E → Result Unit E × O
  after (ok _, o) k = k o
  after (err e, o) k = (err e, o)

  infixl 5 ◌>>◌
  abbrev pub ◌>>◌ : Io O E → Io O E → Io O E
  ◌>>◌ m k o = after (m o) k

  abbrev pub skip : Io O E
  skip o = (ok tt, o)

module _ {O E : Type 0} (sink : AsyncWriteExt O E) where
  abbrev pub sent_on : O → Bytes
  sent_on o = AsyncWrite.sent sink.base o

  -- On success `bs` is sent, and otherwise some front part of it.
  pub record Sends (m : Io O E) (bs : Bytes) : Type 0 where
    pub whole : (o : O) → (m o).0 ≡ ok tt → sent_on (m o).1 ≡ sent_on o ++ bs
    pub part :
        (o : O)
        → (sent later : Bytes) × (sent_on (m o).1 ≡ sent_on o ++ sent) × (bs ≡ sent ++ later)

  pub write_all-Sends : (bs : Bytes) → Sends (sink.write_all bs) bs
  write_all-Sends bs = record {
    whole = sink.sends_all bs;
    part = λ o.
        let (n, e) = sink.sends_part bs o in (take n bs, drop n bs, e, sym (take-append-drop n bs));
  }

  pub flush-Sends : Sends sink.flush []
  flush-Sends = record {
    whole = λ o h. sink.flush_silent o ∙ sym (append-nil (sent_on o));
    part = λ o. ([], [], sink.flush_silent o ∙ sym (append-nil (sent_on o)), refl);
  }

  pub skip-Sends : Sends skip []
  skip-Sends = record {
    whole = λ o h. sym (append-nil (sent_on o));
    part = λ o. ([], [], sym (append-nil (sent_on o)), refl);
  }

  join :
      (o o' o'' : O) (bs cs : Bytes)
      → sent_on o' ≡ sent_on o ++ bs
      → sent_on o'' ≡ sent_on o' ++ cs
      → sent_on o'' ≡ sent_on o ++ (bs ++ cs)
  join o o' o'' bs cs p q = q ∙ ap (λ (x : Bytes). x ++ cs) p ∙ append_assoc (sent_on o) bs cs

  after-whole :
      (r : Result Unit E × O) (k : Io O E) (o : O) (bs cs : Bytes)
      → (r.0 ≡ ok tt → sent_on r.1 ≡ sent_on o ++ bs)
      → Sends k cs
      → (after r k).0 ≡ ok tt
      → sent_on (after r k).1 ≡ sent_on o ++ (bs ++ cs)
  after-whole (ok _, o') k o bs cs first second h =
      join o o' (k o').1 bs cs (first refl) (second.whole o' h)
  after-whole (err e, o') k o bs cs first second h = absurd (err-ne-ok h)

  after-part :
      (r : Result Unit E × O) (k : Io O E) (o : O) (bs cs : Bytes)
      → (r.0 ≡ ok tt → sent_on r.1 ≡ sent_on o ++ bs)
      → ((sent later : Bytes) × (sent_on r.1 ≡ sent_on o ++ sent) × (bs ≡ sent ++ later))
      → Sends k cs
      → (sent later : Bytes) × (sent_on (after r k).1 ≡ sent_on o ++ sent)
        × (bs ++ cs ≡ sent ++ later)
  after-part (ok _, o') k o bs cs first some_of second =
      let (sent, later, e, split) = second.part o' in
      (
        bs ++ sent,
        later,
        join o o' (k o').1 bs sent (first refl) e,
        ap (◌++◌ bs) split ∙ sym (append_assoc bs sent later),
      )
  after-part (err e, o') k o bs cs first (sent, later, s, split) second =
      (sent, later ++ cs, s, ap (λ (x : Bytes). x ++ cs) split ∙ append_assoc sent later cs)

  pub then-Sends :
      {m k : Io O E} {bs cs : Bytes} → Sends m bs → Sends k cs → Sends (m >> k) (bs ++ cs)
  then-Sends {m} {k} {bs} {cs} first second = record {
    whole = λ o h. after-whole (m o) k o bs cs (first.whole o) second h;
    part = λ o. after-part (m o) k o bs cs (first.whole o) (first.part o) second;
  }

  -- What has become of sending `bs`: all of it is on the sink, or with an error some front part.
  abbrev pub Delivers : O → Bytes → Result Unit E × O → Type 0
  Delivers o bs (ok _, o') = sent_on o' ≡ sent_on o ++ bs
  Delivers o bs (err e, o') =
      (sent later : Bytes) × (sent_on o' ≡ sent_on o ++ sent) × (bs ≡ sent ++ later)

  delivered :
      (o : O) (bs : Bytes) (r : Result Unit E × O)
      → (r.0 ≡ ok tt → sent_on r.1 ≡ sent_on o ++ bs)
      → ((sent later : Bytes) × (sent_on r.1 ≡ sent_on o ++ sent) × (bs ≡ sent ++ later))
      → Delivers o bs r
  delivered o bs (ok _, o') h p = h refl
  delivered o bs (err e, o') h p = p

  pub Sends-Delivers : {m : Io O E} {bs : Bytes} → Sends m bs → (o : O) → Delivers o bs (m o)
  Sends-Delivers {m} {bs} h o = delivered o bs (m o) (h.whole o) (h.part o)
