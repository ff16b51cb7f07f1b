-- ===== src/Util/IoBuffer/Cuts.antt =====
-- util/src/io_buffer.rs: taking bytes out of the buffer.
use jrpxy.Prelude.{
  ℕ, zero, suc, ◌-◌, ◌≤◌, ◌<◌, [], ◌∷◌, ◌++◌, some, Bytes, ◌≡◌, refl, sym, ap, arith, length, take,
  drop, length-drop, length-take,
}
use jrpxy.Util.IoBuffer.{ReaderBuffer, BytesReader, as_bytes, len, split_to, take_u8, get_u8}
use jrpxy.Util.IoBuffer.Fills.{IsValid}

-- `bs` has left the front of the data of `r`; the source was not asked.
pub record CutsTo {I : Type 0} (r : BytesReader I) (bs : Bytes) (r' : BytesReader I) : Type 0 where
  pub valid : IsValid r'.buffer
  pub splits : as_bytes r ≡ bs ++ as_bytes r'
  pub same_io : r'.io ≡ r.io

take-nil : (n : ℕ) → take {A = ℕ} n [] ≡ []
take-nil zero = refl
take-nil (suc n) = refl

take-split : (n p : ℕ) (xs : Bytes) → n ≤ p → take p xs ≡ take n xs ++ take (p - n) (drop n xs)
take-split zero p xs h = let same : p - 0 ≡ p = omega arith in rw same
take-split (suc n) zero xs h = elim h [ ]
take-split (suc n) (suc p) [] h = sym (take-nil (suc p - suc n))
take-split (suc n) (suc p) (x ∷ xs) h =
    let same : suc p - suc n ≡ p - n = omega arith in
    rw same (ap (◌∷◌ x) (take-split n p xs (omega arith)))

module _ {I : Type 0} (r : BytesReader I) (v : IsValid r.buffer) where
  -- On a valid buffer, `split_to` of no more than the data does not panic, and returns that many bytes from the front.
  pub split_to-CutsTo :
      (n : ℕ)
      → n ≤ len r
      → (bs : Bytes) × (r' : BytesReader I) × (split_to r n ≡ some (bs, r'))
        × CutsTo r bs r'
        × (length bs ≡ n)
        × (len r' ≡ len r - n)
  unfolding split_to
  split_to-CutsTo n h =
      let left : ReaderBuffer = record {
        buffer = drop n r.buffer.buffer;
        position = r.buffer.position - n;
      } in
      (
        take n r.buffer.buffer,
        record { io = r.io; buffer = left },
        ground arith,
        record {
          valid = omega (arith, length-drop n r.buffer.buffer, v);
          splits = take-split n r.buffer.position r.buffer.buffer h;
          same_io = refl;
        },
        omega (arith, length-take n r.buffer.buffer, v),
        refl,
      )

take_u8-CutsTo :
    {I : Type 0} (i : I) (buffer : Bytes) (position : ℕ)
    → IsValid (record { buffer = buffer; position = position })
    → 0 < position
    → (x : ℕ) × (b : ReaderBuffer) × (take_u8 buffer position ≡ some (x, b))
      × CutsTo
          (record { io = i; buffer = record { buffer = buffer; position = position } })
          (x ∷ [])
          (record { io = i; buffer = b })
unfolding take_u8
take_u8-CutsTo i [] position v h = absurd (omega arith)
take_u8-CutsTo i (x ∷ xs) zero v h = absurd (omega arith)
take_u8-CutsTo i (x ∷ xs) (suc p) v h = (
  x,
  record { buffer = xs; position = p },
  refl,
  record { valid = omega (arith, v); splits = refl; same_io = refl },
)

-- On a valid buffer with data, `get_u8` does not panic, and returns the first byte.
pub get_u8-CutsTo :
    {I : Type 0} (r : BytesReader I)
    → IsValid r.buffer
    → 0 < len r
    → (x : ℕ) × (r' : BytesReader I) × (get_u8 r ≡ some (x, r')) × CutsTo r (x ∷ []) r'
unfolding get_u8
get_u8-CutsTo r v h =
    let (x, b, e, c) = take_u8-CutsTo r.io r.buffer.buffer r.buffer.position v h in
    (x, record { io = r.io; buffer = b }, rw (e, get_u8), c)
