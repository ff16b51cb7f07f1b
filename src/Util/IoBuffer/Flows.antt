-- ===== src/Util/IoBuffer/Flows.antt =====
-- util/src/io_buffer.rs: the bytes that go through a reader, over any sequence of its operations.
use jrpxy.Prelude.{[], ◌++◌, Bytes, ◌≡◌, sym, ap, ◌∙◌, append-nil, append_assoc}
use jrpxy.Util.Async.{AsyncRead}
use jrpxy.Util.IoBuffer.{BytesReader, as_bytes}
use jrpxy.Util.IoBuffer.Fills.{IsValid, Gains}
use jrpxy.Util.IoBuffer.Cuts.{CutsTo}

module _ {I E : Type 0} (source : AsyncRead I E) where
  open source use {received}

  -- From `r` to `r'` the source has handed out `arrived`, and `out` has been taken: what was there
  -- and what arrived is, in order, what was taken and what is there now.
  pub record Flows (r r' : BytesReader I) (out : Bytes) : Type 0 where
    pub valid : IsValid r'.buffer
    pub arrived : Bytes
    pub arrives : received r'.io ≡ received r.io ++ arrived
    pub flow : as_bytes r ++ arrived ≡ out ++ as_bytes r'

  pub Flows-refl : (r : BytesReader I) → IsValid r.buffer → Flows r r []
  Flows-refl r v = record {
    valid = v;
    arrived = [];
    arrives = sym (append-nil (received r.io));
    flow = append-nil (as_bytes r);
  }

  pub Flows-of-Gains : {r r' : BytesReader I} {bs : Bytes} → Gains source r r' bs → Flows r r' []
  Flows-of-Gains {bs = bs} g = record {
    valid = g.valid;
    arrived = bs;
    arrives = g.arrives;
    flow = sym g.grows;
  }

  pub Flows-of-CutsTo : {r r' : BytesReader I} {bs : Bytes} → CutsTo r bs r' → Flows r r' bs
  Flows-of-CutsTo {r} {r'} c = record {
    valid = c.valid;
    arrived = [];
    arrives = ap received c.same_io ∙ sym (append-nil (received r.io));
    flow = append-nil (as_bytes r) ∙ c.splits;
  }

  pub Flows-trans :
      {r s t : BytesReader I} {out out' : Bytes}
      → Flows r s out
      → Flows s t out'
      → Flows r t (out ++ out')
  Flows-trans {r} {s} {t} {out} {out'} f g = record {
    valid = g.valid;
    arrived = f.arrived ++ g.arrived;
    arrives =
        g.arrives
        ∙ ap (λ x. x ++ g.arrived) f.arrives
        ∙ append_assoc (received r.io) f.arrived g.arrived;
    flow =
        sym (append_assoc (as_bytes r) f.arrived g.arrived)
        ∙ ap (λ x. x ++ g.arrived) f.flow
        ∙ append_assoc out (as_bytes s) g.arrived
        ∙ ap (◌++◌ out) g.flow
        ∙ sym (append_assoc out out' (as_bytes t));
  }
