-- ===== src/Util/Parse/Trim.antt =====
-- util/src/parse.rs: `trim_ows`, by its effect on each end of the value.
use jrpxy.Prelude.{
  ℕ, suc, ◌+◌, ◌-◌, Bool, true, false, Option, none, some, [], ◌∷◌, ◌++◌, ◌≡◌, refl, sym, ap, ◌∙◌,
  arith, Bytes, Bool-cases, inl, inr, if◌then◌else◌, all, rposition, position, unwrap_or, take,
  drop,
}
use jrpxy.Util.Parse.{is_ows, is_not_ows, trim_ows}

-- Leading, and trailing, optional whitespace taken off by recursion.
abbrev lstrip : Bytes → Bytes
lstrip [] = []
lstrip (b ∷ r) = if is_ows b then lstrip r else b ∷ r

abbrev keep_edge : ℕ → Bytes → Bytes
keep_edge b [] = if is_ows b then [] else b ∷ []
keep_edge b (x ∷ xs) = b ∷ x ∷ xs

abbrev rstrip : Bytes → Bytes
rstrip [] = []
rstrip (b ∷ r) = keep_edge b (rstrip r)

-- `rposition` finds the end that `rstrip` keeps.
abbrev Finds : Bytes → Option ℕ → Type 0
Finds v none = rstrip v ≡ []
Finds v (some e) = (rstrip v ≡ take (suc e) v) × (rstrip v ≡ [] → ⊥)

add_suc_sub : (i j : ℕ) → suc j + 1 - suc i ≡ j + 1 - i
add_suc_sub i j = omega arith

extend :
    (b : ℕ) (r : Bytes) (o : Option ℕ)
    → Finds r o
    → Finds
        (b ∷ r)
        (elim o [ none ↦ if is_not_ows b then some 0 else none | some i ↦ some (suc i) ])
extend b r none h = ground arith
extend b r (some e) h = ground arith

rposition-rstrip : (v : Bytes) → Finds v (rposition is_not_ows v)
rposition-rstrip [] = refl
rposition-rstrip (b ∷ r) = extend b r (rposition is_not_ows r) (rposition-rstrip r)

-- `trim_ows` on what the two searches return.
abbrev cut : Bytes → Option ℕ → Option ℕ → Bytes
cut v none e = []
cut v (some start) e = take (unwrap_or e start + 1 - start) (drop start v)

abbrev after_ows : Option ℕ → Option ℕ
after_ows none = none
after_ows (some i) = some (suc i)

cut-after_ows :
    (b : ℕ) (r : Bytes) (p e : Option ℕ) → cut (b ∷ r) (after_ows p) (after_ows e) ≡ cut r p e
cut-after_ows b r none e = refl
cut-after_ows b r (some i) none = rw add_suc_sub
cut-after_ows b r (some i) (some j) = rw add_suc_sub

keep_edge_ne : (b : ℕ) (xs : Bytes) → (xs ≡ [] → ⊥) → keep_edge b xs ≡ b ∷ xs
keep_edge_ne b [] h = absurd (h refl)
keep_edge_ne b (x ∷ xs) h = refl

cut-rstrip :
    (b : ℕ) (r : Bytes) (e : Option ℕ)
    → is_ows b ≡ false
    → Finds r e
    → cut (b ∷ r) (some 0) (elim e [ none ↦ some 0 | some i ↦ some (suc i) ])
      ≡ keep_edge b (rstrip r)
cut-rstrip b r none h f = rw (f, h)
cut-rstrip b r (some i) h f =
    let two : suc i + 1 - 0 ≡ suc (suc i) = omega arith in
    rw two (ap (◌∷◌ b) (sym f.0) ∙ sym (keep_edge_ne b (rstrip r) f.1))

trim_ows-cut : (v : Bytes) → trim_ows v ≡ cut v (position is_not_ows v) (rposition is_not_ows v)
unfolding trim_ows
trim_ows-cut v = ground arith

cut-strip : (v : Bytes) → cut v (position is_not_ows v) (rposition is_not_ows v) ≡ rstrip (lstrip v)
cut-strip [] = refl
cut-strip (b ∷ r) = elim (Bool-cases (is_ows b)) [
  | inl h ↦
      let moved = cut-after_ows b r (position is_not_ows r) (rposition is_not_ows r) in
      ground (arith, moved, cut-strip r)
  | inr h ↦
      let kept = cut-rstrip b r (rposition is_not_ows r) h (rposition-rstrip r) in
      ground (arith, kept)
]

trim_ows-strip : (v : Bytes) → trim_ows v ≡ rstrip (lstrip v)
trim_ows-strip v = trim_ows-cut v ∙ cut-strip v

lstrip-append : (pre v : Bytes) → all is_ows pre ≡ true → lstrip (pre ++ v) ≡ lstrip v
lstrip-append [] v h = refl
lstrip-append (b ∷ pre) v h = ground (arith, lstrip-append pre v)

rstrip_blank : (post : Bytes) → all is_ows post ≡ true → rstrip post ≡ []
rstrip_blank [] h = refl
rstrip_blank (b ∷ post) h = ground (arith, rstrip_blank post)

keep_edge_tail : (b : ℕ) (xs core : Bytes) → keep_edge b xs ≡ b ∷ core → xs ≡ core
keep_edge_tail b [] core h = ground arith
keep_edge_tail b (x ∷ xs) core h = ground arith

rstrip-append :
    (core post : Bytes) → rstrip core ≡ core → all is_ows post ≡ true → rstrip (core ++ post) ≡ core
rstrip-append [] post h p = rstrip_blank post p
rstrip-append (b ∷ core) post h p =
    let tail : rstrip core ≡ core = keep_edge_tail b (rstrip core) core h in
    rw (rstrip-append core post tail p) (rw tail at h)

-- The first byte, if any, and the last byte, if any, is optional whitespace.
abbrev pub starts_blank : Bytes → Bool
starts_blank [] = false
starts_blank (b ∷ r) = is_ows b

abbrev pub ends_blank : Bytes → Bool
ends_blank [] = false
ends_blank (b ∷ []) = is_ows b
ends_blank (b ∷ c ∷ r) = ends_blank (c ∷ r)

-- Neither end of the value is optional whitespace.
abbrev pub IsTrimmed : Bytes → Type 0
IsTrimmed v = (starts_blank v ≡ false) × (ends_blank v ≡ false)

lstrip-IsTrimmed : (v : Bytes) → starts_blank v ≡ false → lstrip v ≡ v
lstrip-IsTrimmed [] h = refl
lstrip-IsTrimmed (b ∷ r) h = ground arith

rstrip-IsTrimmed : (v : Bytes) → ends_blank v ≡ false → rstrip v ≡ v
rstrip-IsTrimmed [] h = refl
rstrip-IsTrimmed (b ∷ []) h = ground arith
rstrip-IsTrimmed (b ∷ c ∷ r) h = rw (rstrip-IsTrimmed (c ∷ r) h)

lstrip_blank : (v : Bytes) → all is_ows v ≡ true → lstrip v ≡ []
lstrip_blank [] h = refl
lstrip_blank (b ∷ r) h = ground (arith, lstrip_blank r)

-- A value with no SP or HTAB at either end comes back unchanged from `trim_ows` when any SP and
-- HTAB bytes are put before and behind it: those are removed, and no other byte.
pub trim_ows-surround :
    (pre core post : Bytes)
    → all is_ows pre ≡ true
    → all is_ows post ≡ true
    → IsTrimmed core
    → trim_ows (pre ++ (core ++ post)) ≡ core
trim_ows-surround pre [] post hp hq t =
    trim_ows-strip (pre ++ post)
    ∙ ap rstrip (lstrip-append pre post hp)
    ∙ ap rstrip (lstrip_blank post hq)
trim_ows-surround pre (b ∷ core) post hp hq t =
    trim_ows-strip (pre ++ (b ∷ core ++ post))
    ∙ ap rstrip (lstrip-append pre (b ∷ core ++ post) hp)
    ∙ rw t.0 (rstrip-append (b ∷ core) post (rstrip-IsTrimmed (b ∷ core) t.1) hq)

-- `core` is `v` with blanks cut off at both ends, and has none left there.
pub record Trims (v core : Bytes) : Type 0 where
  pub before : Bytes
  pub behind : Bytes
  pub splits : v ≡ before ++ (core ++ behind)
  pub before_blank : all is_ows before ≡ true
  pub behind_blank : all is_ows behind ≡ true
  pub trimmed : IsTrimmed core

lstrip-splits : (v : Bytes) → (pre : Bytes) × (v ≡ pre ++ lstrip v) × (all is_ows pre ≡ true)
lstrip-splits [] = ([], refl, refl)
lstrip-splits (b ∷ r) = elim (Bool-cases (is_ows b)) [
  | inl h ↦ let (pre, e, a) = lstrip-splits r in (b ∷ pre, rw h (ap (◌∷◌ b) e), rw h a)
  | inr h ↦ ([], rw h, refl)
]

lstrip-starts : (v : Bytes) → starts_blank (lstrip v) ≡ false
lstrip-starts [] = refl
lstrip-starts (b ∷ r) = ground (arith, lstrip-starts r)

rstrip-starts : (v : Bytes) → starts_blank v ≡ false → starts_blank (rstrip v) ≡ false
rstrip-starts [] h = refl
rstrip-starts (b ∷ r) h = ground arith

ends-keep_edge : (b : ℕ) (xs : Bytes) → ends_blank xs ≡ false → ends_blank (keep_edge b xs) ≡ false
ends-keep_edge b [] h = ground arith
ends-keep_edge b (x ∷ xs) h = h

rstrip-ends : (v : Bytes) → ends_blank (rstrip v) ≡ false
rstrip-ends [] = refl
rstrip-ends (b ∷ r) = ends-keep_edge b (rstrip r) (rstrip-ends r)

keep_edge-splits :
    (b : ℕ) (xs post : Bytes)
    → all is_ows post ≡ true
    → (q : Bytes) × (b ∷ (xs ++ post) ≡ keep_edge b xs ++ q) × (all is_ows q ≡ true)
keep_edge-splits b [] post h = elim (Bool-cases (is_ows b)) [
  | inl w ↦ (b ∷ post, rw w, rw w h)
  | inr w ↦ (post, rw w, h)
]
keep_edge-splits b (x ∷ xs) post h = (post, refl, h)

rstrip-splits : (v : Bytes) → (post : Bytes) × (v ≡ rstrip v ++ post) × (all is_ows post ≡ true)
rstrip-splits [] = ([], refl, refl)
rstrip-splits (b ∷ r) =
    let (post, e, a) = rstrip-splits r in
    let (q, f, c) = keep_edge-splits b (rstrip r) post a in (q, ap (◌∷◌ b) e ∙ f, c)

-- Every value splits into blanks, what `trim_ows` returns, and blanks; and what it returns has no SP
-- or HTAB at either end.
pub trim_ows-Trims : (v : Bytes) → Trims v (trim_ows v)
trim_ows-Trims v =
    let (pre, e, a) = lstrip-splits v in
    let (post, f, c) = rstrip-splits (lstrip v) in
    rw trim_ows-strip (record {
      before = pre;
      behind = post;
      splits = e ∙ ap (◌++◌ pre) f;
      before_blank = a;
      behind_blank = c;
      trimmed = (rstrip-starts (lstrip v) (lstrip-starts v), rstrip-ends (lstrip v));
    })
