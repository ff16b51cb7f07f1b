-- ===== src/Body/Writer/Loop.antt =====
-- body/src/writer/chunked.rs: the loop of `poll_open`, `poll_close` and `poll_finish`, which writes what is
-- left of some bytes, and the loop of `write_all`. A round of either writes at least one byte or ends it, so
-- fuel beyond the number of bytes is enough.
use jrpxy.Prelude.{
  ℕ, zero, suc, List, ◌∷◌, length-drop, append-nil, ◌+◌, ◌≤◌, ◌<◌, Option, none, some, Bytes,
  Result, ok, err, [], ◌++◌, ◌≡◌, refl, sym, ap, ◌∙◌, arith, Bool-cases, inl, inr, ltb,
  if◌then◌else◌, length, take, drop, take-append-drop, append_assoc,
}
use jrpxy.Util.Async.{Poll, pending, ready, AsyncWrite, accepted}
use jrpxy.Body.Error.{BodyError, body_write_error}

-- The outcome, how much has been written, and the sink.
abbrev pub Progress : Type 0 → Type 0 → Type 0
Progress O E = Poll (Result Unit (BodyError E)) × ℕ × O

module _ {O E : Type 0} where
  -- What a round makes of a poll of the sink; `k` is the next round.
  unfoldable pub take_turn :
      E → ℕ → (ℕ → O → Option (Progress O E)) → Poll (Result ℕ E) → O → Option (Progress O E)
  take_turn write_zero written k pending o = some (pending, written, o)
  take_turn write_zero written k (ready (err e)) o =
      some (ready (err (body_write_error e)), written, o)
  take_turn write_zero written k (ready (ok zero)) o =
      some (ready (err (body_write_error write_zero)), written, o)
  take_turn write_zero written k (ready (ok (suc w))) o = k (written + suc w) o

  unfoldable pub poll_send : AsyncWrite O E → ℕ → Bytes → ℕ → O → Option (Progress O E)
  unfolding take_turn
  poll_send sink zero all_bytes written o = none
  poll_send sink (suc fuel) all_bytes written o =
      let (outcome, o') = AsyncWrite.poll_write sink o (drop written all_bytes) in
      let turn =
        take_turn (AsyncWrite.write_zero sink) written (poll_send sink fuel all_bytes) outcome o' in
      if ltb written (length all_bytes) then turn else some (ready (ok tt), written, o)

module _ {ℓ} {A : Type ℓ} where
  drop-nil : (n : ℕ) → drop {A = A} n [] ≡ []
  drop-nil zero = refl
  drop-nil (suc n) = refl

  drop-add : (n m : ℕ) (xs : List A) → drop n (drop m xs) ≡ drop (m + n) xs
  drop-add n zero xs = let e : 0 + n ≡ n = omega arith in rw e refl
  drop-add n (suc m) [] = drop-nil n ∙ sym (drop-nil (suc m + n))
  drop-add n (suc m) (x ∷ xs) =
      let e : suc m + n ≡ suc (m + n) = omega arith in rw e (drop-add n m xs)

module _ {O E : Type 0} (sink : AsyncWrite O E) where
  -- The loop has ended: what was to be sent has been or is still to be; success means that it all has been.
  pub record Sent (bs : Bytes) (written : ℕ) (o : O) (p : Progress O E) : Type 0 where
    pub keeps : sink.sent p.2 ++ drop p.1 bs ≡ sink.sent o ++ drop written bs
    pub within : p.1 ≤ length bs
    pub done : p.0 ≡ ready (ok tt) → p.1 ≡ length bs

  abbrev Ends : Bytes → ℕ → O → Option (Progress O E) → Type 0
  Ends bs written o none = ⊥
  Ends bs written o (some p) = Sent bs written o p

  moved :
      (bs : Bytes) (written n : ℕ) (o o' : O)
      → sink.sent o' ≡ sink.sent o ++ take n (drop written bs)
      → sink.sent o' ++ drop (written + n) bs ≡ sink.sent o ++ drop written bs
  moved bs written n o o' e =
      ap (λ (x : Bytes). x ++ drop (written + n) bs) e
      ∙ append_assoc (sink.sent o) (take n (drop written bs)) (drop (written + n) bs)
      ∙ ap (◌++◌ (sink.sent o)) (
          ap (◌++◌ (take n (drop written bs))) (sym (drop-add n written bs))
          ∙ take-append-drop n (drop written bs))

  stopped :
      (bs : Bytes) (written : ℕ) (o o' : O) (e : BodyError E)
      → sink.sent o' ≡ sink.sent o ++ []
      → written ≤ length bs
      → Sent bs written o (ready (err e), written, o')
  stopped bs written o o' e same le = record {
    keeps = ap (λ (x : Bytes). x ++ drop written bs) (same ∙ append-nil (sink.sent o));
    within = le;
    done = λ h. cc;
  }

  later :
      (bs : Bytes) (written written' : ℕ) (o o' : O) (p : Option (Progress O E))
      → sink.sent o' ++ drop written' bs ≡ sink.sent o ++ drop written bs
      → Ends bs written' o' p
      → Ends bs written o p
  later bs written written' o o' none e h = h
  later bs written written' o o' (some p) e h = record {
    keeps = h.keeps ∙ e;
    within = h.within;
    done = h.done;
  }

  take_turn-Ends :
      (bs : Bytes) (written : ℕ) (o o' : O) (k : ℕ → O → Option (Progress O E))
      (out : Poll (Result ℕ E))
      → written ≤ length bs
      → sink.sent o' ≡ sink.sent o ++ accepted out (drop written bs)
      → ((n : ℕ) → out ≡ ready (ok n) → n ≤ length (drop written bs))
      → ((w : ℕ)
          → written + suc w ≤ length bs
          → Ends bs (written + suc w) o' (k (written + suc w) o'))
      → Ends bs written o (take_turn sink.write_zero written k out o')
  unfolding take_turn
  take_turn-Ends bs written o o' k pending le e takes next = record {
    keeps = ap (λ (x : Bytes). x ++ drop written bs) (e ∙ append-nil (sink.sent o));
    within = le;
    done = λ h. cc;
  }
  take_turn-Ends bs written o o' k (ready (err x)) le e takes next =
      stopped bs written o o' (body_write_error x) e le
  take_turn-Ends bs written o o' k (ready (ok zero)) le e takes next =
      stopped bs written o o' (body_write_error sink.write_zero) e le
  take_turn-Ends bs written o o' k (ready (ok (suc w))) le e takes next =
      later bs written (written + suc w) o o' (k (written + suc w) o')
        (moved bs written (suc w) o o' e)
        (next w (omega (arith, takes (suc w) refl, length-drop written bs)))

  poll_send-Ends :
      (fuel : ℕ) (bs : Bytes) (written : ℕ) (o : O)
      → written ≤ length bs
      → length bs < written + fuel
      → Ends bs written o (poll_send sink fuel bs written o)
  unfolding poll_send
  poll_send-Ends zero bs written o le h = absurd (omega (arith, le, h))
  poll_send-Ends (suc fuel) bs written o le h = elim (Bool-cases (ltb written (length bs))) [
    | inr all_sent ↦ rw all_sent (record { keeps = refl; within = le; done = λ _. ground arith })
    | inl more ↦ rw more (
        take_turn-Ends bs written o (sink.poll_write o (drop written bs)).1 (poll_send sink fuel bs)
          (sink.poll_write o (drop written bs)).0 le (sink.sends o (drop written bs))
          (sink.takes o (drop written bs))
          (λ w fits.
            poll_send-Ends fuel bs (written + suc w) (sink.poll_write o (drop written bs)).1 fits
              (omega (arith, h))))
  ]

  Ends-some :
      (bs : Bytes) (written : ℕ) (o : O) (p : Option (Progress O E))
      → Ends bs written o p
      → (q : Progress O E) × (p ≡ some q) × Sent bs written o q
  Ends-some bs written o none h = absurd h
  Ends-some bs written o (some q) h = (q, refl, h)

  -- The loop ends within the fuel, for any sink. It has then sent a front part of what was left of the
  -- bytes, the rest is still to be sent, and it reports success only if nothing is left.
  pub poll_send-Sent :
      (bs : Bytes) (written : ℕ) (o : O)
      → written ≤ length bs
      → (p : Progress O E) × (poll_send sink (suc (length bs)) bs written o ≡ some p)
        × Sent bs written o p
  poll_send-Sent bs written o le =
      Ends-some bs written o _ (poll_send-Ends (suc (length bs)) bs written o le (omega arith))
