-- ===== src/Util/IoBuffer/Fills.antt =====
-- util/src/io_buffer.rs: the buffer keeps its invariant, and no byte is lost or made up between the
-- source and the buffer.
use jrpxy.Prelude.{
  ℕ, ◌+◌, ◌-◌, ◌≤◌, ◌<◌, [], ◌∷◌, ◌++◌, Bytes, ◌==◌, min, ◌≡◌, ◌≢◌, refl, sym, ap, ◌∙◌, arith,
  append-nil, append_assoc, Bool-cases, inl, inr, if◌then◌else◌, length, take, drop, replicate,
  length-append, length-take, length-drop, length-replicate, take-append_le, take-length, Result,
  ok, err,
}
use jrpxy.Util.Async.{Poll, pending, ready, delivered, AsyncRead}
use jrpxy.Util.IoBuffer.{
  ReaderBuffer, usize_max, buffered, reserve, advance, fill, BytesReader, as_bytes, len, filled,
  do_fill, at_least_one, extend, ensure,
}

-- The position lies within the buffer, and the buffer within what can be addressed.
pub record IsValid (b : ReaderBuffer) : Type 0 where
  pub within : b.position ≤ length b.buffer
  pub addressable : length b.buffer ≤ usize_max

take-append-fill :
    (p : ℕ) (xs bs rest : Bytes)
    → p ≤ length xs
    → take (p + length bs) (take p xs ++ (bs ++ rest)) ≡ take p xs ++ bs
take-append-fill p xs bs rest h =
    let front : length (take p xs) ≡ p = omega (arith, length-take p xs) in
    let whole : p + length bs ≡ length (take p xs ++ bs) =
      omega (arith, length-append (take p xs) bs) in
    rw (whole, ← append_assoc (take p xs) bs rest) (take-length (take p xs ++ bs) rest)

module _ (b : ReaderBuffer) (v : IsValid b) where
  grow :
      (needed : ℕ)
      → needed ≤ usize_max
      → IsValid (record b { buffer = b.buffer ++ replicate (needed - length b.buffer) 0 })
        × (take b.position (b.buffer ++ replicate (needed - length b.buffer) 0) ≡ buffered b)
        × (needed ≤ length (b.buffer ++ replicate (needed - length b.buffer) 0))
  grow needed h =
      let total = length-append b.buffer (replicate {A = ℕ} (needed - length b.buffer) 0) in
      let added = length-replicate {A = ℕ} (needed - length b.buffer) 0 in
      (
        omega (arith, total, added, v),
        take-append_le b.position b.buffer _ v.within,
        omega (arith, total, added),
      )

  -- The room is what was asked for, unless the address space ends; the valid data stays.
  reserve-keeps :
      (extra : ℕ)
      → IsValid (reserve b extra).0
        × (buffered (reserve b extra).0 ≡ buffered b)
        × ((reserve b extra).0.position ≡ b.position)
        × (b.position + (reserve b extra).1 ≤ length (reserve b extra).0.buffer)
  unfolding reserve
  reserve-keeps extra = ground (arith, grow (min (b.position + extra) usize_max), v)

fill-advance :
    (b : ReaderBuffer) (bs : Bytes)
    → IsValid b
    → b.position + length bs ≤ length b.buffer
    → IsValid (advance (fill b bs) (length bs))
      × (buffered (advance (fill b bs) (length bs)) ≡ buffered b ++ bs)
unfolding advance fill
fill-advance b bs v h =
    let rest = drop (b.position + length bs) b.buffer in
    let behind = length-append bs rest in
    let whole = length-append (take b.position b.buffer) (bs ++ rest) in
    let front = length-take b.position b.buffer in
    let left = length-drop (b.position + length bs) b.buffer in
    let place : min (b.position + length bs) usize_max ≡ b.position + length bs =
      omega (arith, v) in
    rw place (
      omega (arith, behind, whole, front, left, v),
      take-append-fill b.position b.buffer bs rest v.within,
    )

module _ {I E : Type 0} (source : AsyncRead I E) where
  open source use {poll_read, received}

  filled-keeps :
      (b : ReaderBuffer) (p : Poll (Result Bytes E))
      → IsValid b
      → b.position + length (delivered p) ≤ length b.buffer
      → IsValid (filled source b p).1 × (buffered (filled source b p).1 ≡ buffered b ++ delivered p)
  unfolding filled
  filled-keeps b pending v h = (v, sym (append-nil (buffered b)))
  filled-keeps b (ready (err e)) v h = (v, sym (append-nil (buffered b)))
  filled-keeps b (ready (ok bs)) v h = fill-advance b bs v h

  -- What the poll of the source in `do_fill` delivers.
  abbrev pub arrivals : ℕ → BytesReader I → Bytes
  arrivals n r = delivered (poll_read r.io (reserve r.buffer n).1).0

  -- `r'` is `r` after the source has handed out `bs`, and all of it stands at the end of the data.
  pub record Gains (r r' : BytesReader I) (bs : Bytes) : Type 0 where
    pub valid : IsValid r'.buffer
    pub grows : as_bytes r' ≡ as_bytes r ++ bs
    pub arrives : received r'.io ≡ received r.io ++ bs

  -- `do_fill` on a valid buffer keeps it valid, and adds to the data exactly what the poll of the
  -- source delivers, whatever the outcome of the poll.
  pub do_fill-Gains :
      (n : ℕ) (r : BytesReader I) → IsValid r.buffer → Gains r (do_fill source n r).1 (arrivals n r)
  unfolding do_fill
  do_fill-Gains n r v =
      let (valid, same, place, room) = reserve-keeps r.buffer v n in
      let fits = source.fits r.io (reserve r.buffer n).1 in
      let (valid', grows) =
        filled-keeps (reserve r.buffer n).0 (poll_read r.io (reserve r.buffer n).1).0 valid
          (omega (arith, place, room, fits)) in
      record {
        valid = valid';
        grows = grows ∙ rw same;
        arrives = source.receives r.io (reserve r.buffer n).1;
      }

  delivers :
      (b : ReaderBuffer) (p : Poll (Result Bytes E))
      → (elim (filled source b p).0 [
        | pending ↦ pending
        | ready result ↦ ready (at_least_one source result)
      ])
        ≡ ready (ok tt)
      → delivered p ≢ []
  unfolding filled at_least_one
  delivers b pending h e = cc
  delivers b (ready (err x)) h e = cc
  delivers b (ready (ok [])) h e = cc
  delivers b (ready (ok (x ∷ xs))) h e = cc

  delivers_count :
      (b : ReaderBuffer) (p : Poll (Result Bytes E)) {k : ℕ}
      → (filled source b p).0 ≡ ready (ok k)
      → length (delivered p) ≡ k
  unfolding filled
  delivers_count b pending h = cc
  delivers_count b (ready (err x)) h = cc
  delivers_count b (ready (ok bs)) h = cc

  -- What `do_fill` returns is the number of bytes that it added.
  pub do_fill-length :
      (n : ℕ) (r : BytesReader I) {k : ℕ}
      → (do_fill source n r).0 ≡ ready (ok k)
      → length (arrivals n r) ≡ k
  unfolding do_fill
  do_fill-length n r h =
      delivers_count (reserve r.buffer n).0 (poll_read r.io (reserve r.buffer n).1).0 h

  -- `extend` succeeds only if the source has handed out a byte.
  pub extend-ok :
      (n : ℕ) (r : BytesReader I) → (extend source n r).0 ≡ ready (ok tt) → arrivals n r ≢ []
  unfolding extend do_fill
  extend-ok n r h = delivers (reserve r.buffer n).0 (poll_read r.io (reserve r.buffer n).1).0 h

  pub Gains-len :
      {r r' : BytesReader I} {bs : Bytes}
      → IsValid r.buffer
      → Gains r r' bs
      → len r' ≡ len r + length bs
  Gains-len {r} {r'} {bs} v g = omega (
    arith,
    length-take r.buffer.position r.buffer.buffer,
    length-take r'.buffer.position r'.buffer.buffer,
    ap length g.grows,
    length-append (as_bytes r) bs,
    v,
    g.valid,
  )

  Gains-some :
      {r r' : BytesReader I} {bs : Bytes} → IsValid r.buffer → Gains r r' bs → bs ≢ [] → 0 < len r'
  Gains-some {bs = []} v g ne = absurd (ne refl)
  Gains-some {bs = x ∷ xs} v g ne = omega (arith, Gains-len v g)

  same-Gains : (r : BytesReader I) → IsValid r.buffer → Gains r r []
  same-Gains r v = record {
    valid = v;
    grows = sym (append-nil (as_bytes r));
    arrives = sym (append-nil (received r.io));
  }

  -- What `ensure` reads: nothing if there is data already.
  abbrev pub ensured : ℕ → BytesReader I → Bytes
  ensured n r = if len r == 0 then arrivals n r else []

  pub extend-Gains :
      (n : ℕ) (r : BytesReader I) → IsValid r.buffer → Gains r (extend source n r).1 (arrivals n r)
  unfolding extend
  extend-Gains n r v = do_fill-Gains n r v

  -- `ensure` on a valid buffer keeps it valid. It adds to the data exactly what the source hands out meanwhile, and when it returns with
  -- success there is at least one byte of data.
  pub ensure-Gains :
      (n : ℕ) (r : BytesReader I)
      → IsValid r.buffer
      → Gains r (ensure source n r).1 (ensured n r)
        × ((ensure source n r).0 ≡ ready (ok tt) → 0 < len (ensure source n r).1)
  unfolding ensure
  ensure-Gains n r v = elim (Bool-cases (len r == 0)) [
    | inl h ↦ rw h (extend-Gains n r v, λ e. Gains-some v (extend-Gains n r v) (extend-ok n r e))
    | inr h ↦ rw h (same-Gains r v, λ e. ground arith)
  ]
