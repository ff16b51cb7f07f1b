-- ===== src/HttpMessage/Connection/Tokens.antt =====
-- http-message/src/header.rs: what `TokenParser` yields.
use jrpxy.Prelude.{
  ℕ, zero, suc, ◌+◌, ◌≤◌, ◌<◌, true, false, not, List, [], ◌∷◌, ◌++◌, Option, none, some, Bytes,
  ◌≡◌, ◌≢◌, refl, ◌∙◌, arith, inl, inr, Result-cases, if◌then◌else◌, is_empty, all, keep_if,
  keep_if-append, length, length-drop, find_or_end, all-take-find, take-append-drop, take, drop, ok,
  err,
}
use jrpxy.Util.Parse.Tables.{is_valid_tchar}
use jrpxy.HttpMessage.Connection.{
  ConnectionTokenParserError, Item, skip_whitespace, skip_comma, is_not_tchar, take_token, next,
  tokens, tokens_of,
}

separators :
    (is_valid_tchar b',' ≡ false) × (is_valid_tchar b' ' ≡ false) × (is_valid_tchar b'\t' ≡ false)
unfolding is_valid_tchar
separators = (refl, refl, refl)

keep_if-all :
    (v : Bytes)
    → all (λ b. not (is_not_tchar b)) v ≡ true
    → (keep_if is_valid_tchar v ≡ v) × (all is_valid_tchar v ≡ true)
keep_if-all [] h = (refl, refl)
keep_if-all (b ∷ v) h = ground (arith, keep_if-all v)

-- Skipped whitespace holds no token character.
skip_whitespace-keeps :
    (v : Bytes)
    → (keep_if is_valid_tchar (skip_whitespace v) ≡ keep_if is_valid_tchar v)
      × (length (skip_whitespace v) ≤ length v)
unfolding skip_whitespace
skip_whitespace-keeps [] = (refl, omega arith)
skip_whitespace-keeps (b ∷ r) = ground (arith, skip_whitespace-keeps r, separators)

skip_comma-keeps :
    (tok v : Bytes) {t rest : Bytes}
    → skip_comma tok v ≡ ok (t, rest)
    → (t ≡ tok)
      × (keep_if is_valid_tchar v ≡ keep_if is_valid_tchar rest)
      × (length rest ≤ length v)
      × ((v ≢ []) → length rest < length v)
unfolding skip_comma
skip_comma-keeps tok [] h = ground arith
skip_comma-keeps tok (c ∷ r) h = ground (arith, skip_whitespace-keeps r, separators)

-- A turn of the loop takes the token characters in front, drops no other, and moves on.
record Takes (v tok rest : Bytes) : Type 0 where
  chars : all is_valid_tchar tok ≡ true
  keeps : keep_if is_valid_tchar v ≡ tok ++ keep_if is_valid_tchar rest
  moves : v ≢ [] → length rest < length v

lt_through :
    (w : Bytes) (n m : ℕ) → length w ≤ m → 0 < m → n ≤ length w → (w ≢ [] → n < length w) → n < m
lt_through [] n m a b c d = omega arith
lt_through (x ∷ w) n m a b c d = let lt = d (λ e. cc) in omega arith

length_pos : (v : Bytes) → v ≢ [] → 0 < length v
length_pos [] h = absurd (h refl)
length_pos (b ∷ v) h = omega arith

take_token-Takes : (v : Bytes) {tok rest : Bytes} → take_token v ≡ ok (tok, rest) → Takes v tok rest
unfolding take_token
take_token-Takes v {rest = rest} h =
    let ix = find_or_end is_not_tchar v in
    let (front, kept) = keep_if-all (take ix v) (all-take-find is_not_tchar v) in
    let (same, behind, le, lt) = skip_comma-keeps (take ix v) (skip_whitespace (drop ix v)) h in
    let (blanks, le') = skip_whitespace-keeps (drop ix v) in
    record {
      chars = rw same kept;
      keeps = cc (
        take-append-drop ix v,
        keep_if-append is_valid_tchar (take ix v) (drop ix v),
        front,
        blanks,
        behind,
        same,
      );
      moves = λ ne.
          lt_through (skip_whitespace (drop ix v)) (length rest) (length v)
            (omega (arith, length-drop ix v)) (length_pos v ne) le lt;
    }

-- What one call of `next` gives, with enough fuel.
data Next (v : Bytes) : Option Item → Bytes → Type 0 where
  none_left : keep_if is_valid_tchar v ≡ [] → (rest : Bytes) → Next v none rest
  refused : (e : ConnectionTokenParserError) → Next v (some (err e)) []
  found :
      (tok rest : Bytes)
      → tok ≢ []
      → all is_valid_tchar tok ≡ true
      → keep_if is_valid_tchar v ≡ tok ++ keep_if is_valid_tchar rest
      → length rest < length v
      → Next v (some (ok tok)) rest

Next-skip :
    {v rest left : Bytes} {o : Option Item}
    → keep_if is_valid_tchar v ≡ keep_if is_valid_tchar rest
    → length rest < length v
    → Next rest o left
    → Next v o left
Next-skip e lt (none_left h r) = none_left (e ∙ h) r
Next-skip e lt (refused x) = refused x
Next-skip e lt (found tok rest ne a k l) = found tok rest ne a (e ∙ k) (omega arith)

Next-turn :
    (v tok rest : Bytes) (again : Option Item × Bytes)
    → Takes v tok rest
    → length rest < length v
    → Next rest again.0 again.1
    → Next v
        (if is_empty tok then again else (some (ok tok), rest)).0
        (if is_empty tok then again else (some (ok tok), rest)).1
Next-turn v [] rest again t lt n = Next-skip t.keeps lt n
Next-turn v (c ∷ tok) rest again t lt n = found (c ∷ tok) rest (λ e. cc) t.chars t.keeps lt

next-Next : (fuel : ℕ) (v : Bytes) → length v < fuel → Next v (next fuel v).0 (next fuel v).1
unfolding next
next-Next zero v h = absurd (omega arith)
next-Next (suc fuel) [] h = none_left refl []
next-Next (suc fuel) (b ∷ r) h = elim (Result-cases (take_token (b ∷ r))) [
  | inl ((tok, rest), e) ↦
      let takes = take_token-Takes (b ∷ r) e in
      let lt = takes.moves (λ x. cc) in
      rw (e, next)
        (Next-turn (b ∷ r) tok rest (next fuel rest) takes lt (next-Next fuel rest (omega arith)))
  | inr (x, e) ↦ rw (e, next) (refused x)
]

-- What the iterator yields from `v`: non-empty tokens that hold the token characters of `v` in
-- order, up to the end of `v` or up to one error, which comes last.
abbrev pub Yields : Bytes → List Item → Type 0
Yields v [] = keep_if is_valid_tchar v ≡ []
Yields v (err e ∷ items) = items ≡ []
Yields v (ok tok ∷ items) =
    (tok ≢ [])
    × (all is_valid_tchar tok ≡ true)
    × (rest : Bytes) × (keep_if is_valid_tchar v ≡ tok ++ keep_if is_valid_tchar rest)
    × Yields rest items

yield_one :
    (fuel : ℕ) (v : Bytes) {o : Option Item} {rest : Bytes}
    → Next v o rest
    → (length rest < length v → Yields rest (tokens fuel rest))
    → (rest ≡ [] → tokens fuel rest ≡ [])
    → Yields v (elim o [ none ↦ [] | some i ↦ i ∷ tokens fuel rest ])
yield_one fuel v (none_left h r) more end = h
yield_one fuel v (refused e) more end = end refl
yield_one fuel v (found tok rest ne a k lt) more end = (ne, a, rest, k, more lt)

tokens-nil : (fuel : ℕ) → tokens fuel [] ≡ []
unfolding tokens
tokens-nil zero = refl
tokens-nil (suc fuel) = refl

tokens-Yields : (fuel : ℕ) (v : Bytes) → length v < fuel → Yields v (tokens fuel v)
unfolding tokens
tokens-Yields zero v h = absurd (omega arith)
tokens-Yields (suc fuel) v h =
    yield_one fuel v (next-Next (suc fuel) v h)
      (λ lt. tokens-Yields fuel (next (suc fuel) v).1 (omega arith)) (λ e. rw e (tokens-nil fuel))

-- From any header value the token iterator yields non-empty tokens of token characters only, and at
-- most one error, which is the last item. If it yields no error, the tokens hold every token
-- character of the value, in order.
pub tokens_of-Yields : (v : Bytes) → Yields v (tokens_of v)
unfolding tokens_of
tokens_of-Yields v = tokens-Yields (length v + 1) v (omega arith)
