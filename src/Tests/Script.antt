-- ===== src/Tests/Script.antt =====
-- A source of bytes that replays chunks, for the tests.
use jrpxy.Prelude.{
  ℕ, ◌≤◌, ◌≡◌, refl, sym, arith, [], ◌∷◌, ◌++◌, append-nil, List, Bytes, Result, ok, length,
  length-take, take, drop,
}
use jrpxy.Util.Async.{Poll, pending, ready, delivered, AsyncRead}

pub record Script : Type 0 where
  pub got : Bytes
  pub chunks : List Bytes

-- An empty chunk is a poll that is not ready.
unfoldable pub replay : List Bytes → Bytes → ℕ → Poll (Result Bytes Unit) × Script
replay [] got room = (ready (ok []), record { got = got; chunks = [] })
replay ([] ∷ cs) got room = (pending, record { got = got; chunks = cs })
replay ((b ∷ bs) ∷ cs) got room = (
  ready (ok (take room (b ∷ bs))),
  record { got = got ++ take room (b ∷ bs); chunks = drop room (b ∷ bs) ∷ cs },
)

pub replay-fits :
    (cs : List Bytes) (got : Bytes) (room : ℕ) → length (delivered (replay cs got room).0) ≤ room
unfolding replay
replay-fits [] got room = omega arith
replay-fits ([] ∷ cs) got room = omega arith
replay-fits ((b ∷ bs) ∷ cs) got room = omega (arith, length-take room (b ∷ bs))

pub replay-receives :
    (cs : List Bytes) (got : Bytes) (room : ℕ)
    → (replay cs got room).1.got ≡ got ++ delivered (replay cs got room).0
unfolding replay
replay-receives [] got room = sym (append-nil got)
replay-receives ([] ∷ cs) got room = sym (append-nil got)
replay-receives ((b ∷ bs) ∷ cs) got room = refl

abbrev pub script : AsyncRead Script Unit
script = record {
  poll_read = λ s room. replay s.chunks s.got room;
  received = λ s. s.got;
  fits = λ s room. replay-fits s.chunks s.got room;
  receives = λ s room. replay-receives s.chunks s.got room;
}
