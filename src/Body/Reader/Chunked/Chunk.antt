-- ===== src/Body/Reader/Chunked/Chunk.antt =====
-- body/src/reader/chunked.rs: what the reader of one chunk takes off the stream.
use jrpxy.Prelude.{
  ℕ, ◌+◌, ◌-◌, ◌==◌, if_then, if_else, Option, none, some, Bytes, codes, min, Result, ok, err, [],
  ◌∷◌, ◌++◌, ◌≡◌, refl, sym, ap, ◌∙◌, arith, Bool-cases, inl, inr, length, length-append,
  append-nil, append_assoc, subst,
}
use jrpxy.Util.Async.{Poll, pending, ready, AsyncRead}
use jrpxy.Util.IoBuffer.{BytesReader, len}
use jrpxy.Util.IoBuffer.Cuts.{split_to-CutsTo, get_u8-CutsTo}
use jrpxy.Util.IoBuffer.Flows.{Flows, Flows-trans, Flows-of-CutsTo}
use jrpxy.Body.Error.{BodyError, invalid_chunk_footer}
use jrpxy.Body.Reader.{Polled, poll_ensure}
use jrpxy.Body.Reader.Ensures.{poll_ensure-Flows, poll_ensure-ok}
use jrpxy.Body.Reader.ContentLength.Stream.{body_of}
use jrpxy.Body.Reader.Chunked.{
  ChunkBodyState, in_body, in_footer_need_cr, in_footer_need_lf, done, ChunkDataReader, awaited,
  chunk_data, chunk_footer, poll_need_lf, poll_need_cr, poll_in_body, poll_chunk,
}

-- The part of the footer that has been read, in each state.
abbrev pub Foot : ChunkBodyState → ℕ → Bytes → Type 0
Foot in_body left foot = foot ≡ []
Foot in_footer_need_cr left foot = (foot ≡ []) × (left ≡ 0)
Foot in_footer_need_lf left foot = (foot ≡ codes "\r") × (left ≡ 0)
Foot done left foot = (foot ≡ codes "\r\n") × (left ≡ 0)

module _ {I E : Type 0} (source : AsyncRead I E) (start : BytesReader I) (size : ℕ) where
  -- Since `start`, `out` has been returned, and the stream has given that and the part of the footer.
  pub record Has (c : ChunkDataReader I) (out : Bytes) : Type 0 where
    pub foot : Bytes
    pub counts : c.remaining + length out ≡ size
    pub foots : Foot c.state c.remaining foot
    pub flows : Flows source start c.reader (out ++ foot)

  -- What a poll leaves, unless it fails.
  abbrev pub Keeps : Poll (Result (Option Bytes) (BodyError E)) → ChunkDataReader I → Bytes → Type 0
  Keeps (ready (err e)) c out = Unit
  Keeps (ready (ok none)) c out = Has c (out ++ []) × (c.state ≡ done)
  Keeps o c out = Has c (out ++ body_of o)

  pub record Polls (out : Bytes) (p : Polled (ChunkDataReader I) (Option Bytes) E) : Type 0 where
    pub outcome : Poll (Result (Option Bytes) (BodyError E))
    pub reader : ChunkDataReader I
    pub returns : p ≡ some (outcome, reader)
    pub keeps : Keeps outcome reader out

  -- The same reader with more data behind what has been taken.
  ensured :
      (c : ChunkDataReader I) (out : Bytes) (r : BytesReader I)
      → Has c out
      → Flows source c.reader r []
      → Has (record c { reader = r }) (out ++ [])
  ensured c out r h f = rw (append-nil out) (record {
    foot = h.foot;
    counts = h.counts;
    foots = h.foots;
    flows =
        subst (Flows source start r) (append-nil (out ++ h.foot)) (Flows-trans source h.flows f);
  })

  awaited-Polls :
      (c : ChunkDataReader I) (out : Bytes) (r : BytesReader I)
      (p : Poll (Result Unit (BodyError E))) (next : Polled (ChunkDataReader I) (Option Bytes) E)
      → Has c out
      → Flows source c.reader r []
      → (p ≡ ready (ok tt) → Polls out next)
      → Polls out (awaited p (record c { reader = r }) next)
  unfolding awaited
  awaited-Polls c out r pending next h f k = record {
    outcome = pending;
    reader = record c { reader = r };
    returns = refl;
    keeps = ensured c out r h f;
  }
  awaited-Polls c out r (ready (err e)) next h f k = record {
    outcome = ready (err e);
    reader = record c { reader = r };
    returns = refl;
    keeps = tt;
  }
  awaited-Polls c out r (ready (ok _)) next h f k = k refl

  data-Polls :
      (max_len : ℕ) (c : ChunkDataReader I) (out : Bytes)
      → Has c out
      → c.state ≡ in_body
      → Polls out (chunk_data source max_len c)
  unfolding chunk_data
  data-Polls max_len c out h body =
      let f = poll_ensure-Flows source c.reader h.flows.valid in
      let r = (poll_ensure source c.reader).1 in
      awaited-Polls c out r (poll_ensure source c.reader).0 _ h f (λ ok_data.
        let at = min (min c.remaining (len r)) max_len in
        let (bs, r', e, cuts, count, left) = split_to-CutsTo r f.valid at (omega arith) in
        let no_foot : h.foot ≡ [] = subst (λ s. Foot s c.remaining h.foot) body h.foots in
        record {
          outcome = ready (ok (some bs));
          reader = record c { reader = r'; remaining = c.remaining - at };
          returns = rw e refl;
          keeps = record {
            foot = [];
            counts = omega (arith, h.counts, count, length-append out bs);
            foots = subst (λ s. Foot s (c.remaining - at) []) (sym body) refl;
            flows =
                subst (Flows source start r')
                  (ap (λ (x : Bytes). (((out ++ x) ++ []) ++ bs)) no_foot
                    ∙ ap (λ (x : Bytes). x ++ bs) (append-nil (out ++ []) ∙ append-nil out)
                    ∙ sym (append-nil (out ++ bs)))
                  (Flows-trans source (Flows-trans source h.flows f) (Flows-of-CutsTo source cuts));
          };
        })

  footer-Polls :
      (wanted : ℕ) (next : ChunkBodyState)
      (k : ChunkDataReader I → Polled (ChunkDataReader I) (Option Bytes) E) (c : ChunkDataReader I)
      (out : Bytes) (h : Has c out)
      → ((r : BytesReader I)
          → Flows source start r (out ++ (h.foot ++ wanted ∷ []))
          → Polls out (k (record c { reader = r; state = next })))
      → Polls out (chunk_footer source wanted next k c)
  unfolding chunk_footer
  footer-Polls wanted next k c out h go =
      let f = poll_ensure-Flows source c.reader h.flows.valid in
      let r = (poll_ensure source c.reader).1 in
      awaited-Polls c out r (poll_ensure source c.reader).0 _ h f (λ ok_data.
        let (b, r', e, cuts) =
          get_u8-CutsTo r f.valid (poll_ensure-ok source c.reader h.flows.valid ok_data) in
        let taken =
          Flows-trans source (Flows-trans source h.flows f) (Flows-of-CutsTo source cuts) in
        elim (Bool-cases (b == wanted)) [
          | inl same ↦
              let is : b ≡ wanted = ground arith in
              rw e (
                rw same (
                  go r' (
                    subst (Flows source start r')
                      (ap (λ (x : Bytes). x ++ b ∷ []) (append-nil (out ++ h.foot))
                        ∙ append_assoc out h.foot (b ∷ [])
                        ∙ ap (λ (x : ℕ). out ++ (h.foot ++ x ∷ [])) is)
                      taken)))
          | inr other ↦ rw e (
              rw other (record {
                outcome = ready (err (invalid_chunk_footer wanted b));
                reader = record c { reader = r' };
                returns = refl;
                keeps = tt;
              }))
        ])

  finished :
      (c : ChunkDataReader I) (out : Bytes)
      → Has c out
      → c.state ≡ done
      → Polls out (some (ready (ok none), c))
  finished c out h e = record {
    outcome = ready (ok none);
    reader = c;
    returns = refl;
    keeps = (rw (append-nil out) h, e);
  }

  lf-Polls :
      (c : ChunkDataReader I) (out : Bytes)
      → Has c out
      → c.state ≡ in_footer_need_lf
      → Polls out (poll_need_lf source c)
  unfolding poll_need_lf
  lf-Polls c out h e =
      let (foot, none_left) = subst (λ s. Foot s c.remaining h.foot) e h.foots in
      footer-Polls b'\n' done (λ c'. some (ready (ok none), c')) c out h
        (λ r flows.
          finished (record c { reader = r; state = done }) out
            (record {
              foot = codes "\r\n";
              counts = h.counts;
              foots = (refl, none_left);
              flows =
                  subst (λ (x : Bytes). Flows source start r (out ++ (x ++ b'\n' ∷ []))) foot flows;
            })
            refl)

  cr-Polls :
      (c : ChunkDataReader I) (out : Bytes)
      → Has c out
      → c.state ≡ in_footer_need_cr
      → Polls out (poll_need_cr source c)
  unfolding poll_need_cr
  cr-Polls c out h e =
      let (foot, none_left) = subst (λ s. Foot s c.remaining h.foot) e h.foots in
      footer-Polls b'\r' in_footer_need_lf (poll_need_lf source) c out h (λ r flows.
        lf-Polls (record c { reader = r; state = in_footer_need_lf }) out
          (record {
            foot = codes "\r";
            counts = h.counts;
            foots = (refl, none_left);
            flows =
                subst (λ (x : Bytes). Flows source start r (out ++ (x ++ b'\r' ∷ []))) foot flows;
          })
          refl)

  body-Polls :
      (max_len : ℕ) (c : ChunkDataReader I) (out : Bytes)
      → Has c out
      → c.state ≡ in_body
      → Polls out (poll_in_body source max_len c)
  unfolding poll_in_body
  body-Polls max_len c out h e = elim (Bool-cases (c.remaining == 0)) [
    | inr more ↦
        if_else (poll_need_cr source (record c { state = in_footer_need_cr })) more (Polls out)
          (data-Polls max_len c out h e)
    | inl none_left ↦ if_then (chunk_data source max_len c) none_left (Polls out) (
        cr-Polls (record c { state = in_footer_need_cr }) out
          (record {
            foot = h.foot;
            counts = h.counts;
            foots = (subst (λ s. Foot s c.remaining h.foot) e h.foots, ground arith);
            flows = h.flows;
          })
          refl)
  ]

  by_state :
      (max_len : ℕ) (c : ChunkDataReader I) (out : Bytes) (s : ChunkBodyState)
      → Has c out
      → c.state ≡ s
      → Polls out (poll_chunk source max_len c)
  unfolding poll_chunk
  by_state max_len c out in_body h e = rw (e, poll_chunk) (body-Polls max_len c out h e)
  by_state max_len c out in_footer_need_cr h e = rw (e, poll_chunk) (cr-Polls c out h e)
  by_state max_len c out in_footer_need_lf h e = rw (e, poll_chunk) (lf-Polls c out h e)
  by_state max_len c out done h e = rw (e, poll_chunk) (finished c out h e)

  -- A poll of a reader in the midst of a chunk does not panic, for any source. Unless it fails, all that has been
  -- taken off the stream is the data returned and a part of the footer: none of it before all data is returned,
  -- and all of it when the poll says that the chunk is over.
  pub poll_chunk-Polls :
      (max_len : ℕ) (c : ChunkDataReader I) (out : Bytes)
      → Has c out
      → Polls out (poll_chunk source max_len c)
  poll_chunk-Polls max_len c out h = by_state max_len c out c.state h refl
