-- ===== src/Proxy/Target/Absolute.antt =====
-- proxy/src/request_target.rs: `classify` against the grammar of the absolute form.
use jrpxy.Prelude.{
  ℕ, zero, suc, ◌+◌, Bytes, Bool, true, false, ◌==◌, ◌||◌, not, ltb, if◌then◌else◌, [], ◌∷◌, ◌++◌,
  ◌≡◌, ◌≢◌, ◌↔◌, refl, sym, ap, ◌∙◌, arith, length, take, drop, any, all, is_empty, codes, bytes_eq,
  bytes_eq_iff, find_or_end, Begins, all-take-find, Begins-drop-find, find_or_end-append,
  take-append-drop, take-length, drop-length, length-append, subst, is_ascii_alphabetic,
  is_ascii_alphanumeric, Bool-cases, inl, inr, ==_iff,
}
use jrpxy.Proxy.Target.{
  RequestTargetForm, origin, asterisk, absolute, maybe_authority, empty, malformed, ends_scheme,
  ends_authority, is_fragment, is_at, origin_path, parse_authority, parse_scheme,
  parse_absolute_form, classify_first, classify,
}

-- The bytes that end an authority.
abbrev pub delimits : ℕ → Bool
delimits b = b == b'/' || (b == b'?' || b == b'#')

-- A character of `scheme` in RFC 3986 section 3.1.
abbrev pub scheme_char : ℕ → Bool
scheme_char b = is_ascii_alphanumeric b || (b == b'+' || (b == b'-' || b == b'.'))

-- A path and query, and its origin form: a path that is empty becomes `/`.
pub data OriginForm : Bytes → Bytes → Type 0 where
  no_path : OriginForm [] (b'/' ∷ [])
  only_query : (query : Bytes) → OriginForm (b'?' ∷ query) (b'/' ∷ b'?' ∷ query)
  has_path : (path : Bytes) → OriginForm (b'/' ∷ path) (b'/' ∷ path)

-- What follows `scheme "://"`: an authority that is not empty and holds no `@`, a path and query, and
-- perhaps a fragment. The path and query in origin form is `q`.
pub record HasAuthority (s a q : Bytes) : Type 0 where
  pub path_query : Bytes
  pub fragment : Bytes
  pub parts : s ≡ a ++ (path_query ++ fragment)
  pub some_authority : a ≢ []
  pub in_authority : all (λ b. not (delimits b)) a ≡ true
  pub no_userinfo : all (λ b. not (b == b'@')) a ≡ true
  pub in_path : all (λ b. not (b == b'#')) path_query ≡ true
  pub fragment_begins : Begins (λ b. b == b'#') fragment
  pub rewritten : OriginForm path_query q

not-not : (b : Bool) → not (not b) ≡ b
not-not true = refl
not-not false = refl

all_same : (p q : ℕ → Bool) (xs : Bytes) → ((b : ℕ) → p b ≡ q b) → all p xs ≡ all q xs
all_same p q [] h = refl
all_same p q (x ∷ xs) h = rw (h x, all_same p q xs h)

not-any : (p : ℕ → Bool) (xs : Bytes) → any p xs ≡ false → all (λ b. not (p b)) xs ≡ true
not-any p [] h = refl
not-any p (x ∷ xs) h = ground (arith, not-any p xs)

any-not : (p : ℕ → Bool) (xs : Bytes) → all (λ b. not (p b)) xs ≡ true → any p xs ≡ false
any-not p [] h = refl
any-not p (x ∷ xs) h = ground (arith, any-not p xs)

scheme_chars : (xs : Bytes) → all (λ b. not (ends_scheme b)) xs ≡ all scheme_char xs
unfolding ends_scheme
scheme_chars xs = all_same (λ b. not (ends_scheme b)) scheme_char xs (λ b. not-not (scheme_char b))

origin_path-OriginForm :
    (bs : Bytes)
    → Begins ends_authority bs
    → all (λ b. not (b == b'#')) bs ≡ true
    → OriginForm bs (origin_path bs)
unfolding ends_authority origin_path
origin_path-OriginForm [] begins inside = no_path
origin_path-OriginForm (b ∷ r) begins inside = elim (Bool-cases (b == b'?')) [
  | inl e ↦ let same : b ≡ b'?' = (==_iff b b'?').0 e in rw same (only_query r)
  | inr e ↦ let same : b ≡ b'/' = ground (arith, begins, inside, e) in rw same (has_path r)
]

OriginForm-origin_path : {bs q : Bytes} → OriginForm bs q → q ≡ origin_path bs
unfolding origin_path
OriginForm-origin_path no_path = refl
OriginForm-origin_path (only_query query) = refl
OriginForm-origin_path (has_path path) = refl

OriginForm-Begins : {bs q : Bytes} → OriginForm bs q → Begins ends_authority bs
unfolding ends_authority
OriginForm-Begins no_path = tt
OriginForm-Begins (only_query query) = refl
OriginForm-Begins (has_path path) = refl

malformed-ne-absolute : {a q : Bytes} → malformed ≢ absolute a q
malformed-ne-absolute = λ e. cc

passes :
    (c : Bool) (refused : RequestTargetForm) {f : RequestTargetForm} {a q : Bytes}
    → refused ≢ absolute a q
    → (if c then refused else f) ≡ absolute a q
    → (c ≡ false) × (f ≡ absolute a q)
passes true refused ne h = absurd (ne h)
passes false refused ne h = (refl, h)

passes_test :
    (c : Bool) {f : RequestTargetForm} {a q : Bytes}
    → (if c then f else malformed) ≡ absolute a q
    → (c ≡ true) × (f ≡ absolute a q)
passes_test true h = (refl, h)
passes_test false h = absurd (malformed-ne-absolute h)

Begins-take : (p : ℕ → Bool) (n : ℕ) (xs : Bytes) → Begins p xs → Begins p (take n xs)
Begins-take p zero xs h = tt
Begins-take p (suc n) [] h = tt
Begins-take p (suc n) (x ∷ xs) h = h

Begins-append :
    (xs ys : Bytes)
    → Begins ends_authority xs
    → Begins is_fragment ys
    → Begins ends_authority (xs ++ ys)
unfolding ends_authority
Begins-append [] [] h k = tt
Begins-append [] (y ∷ ys) h k = ground (arith, k)
Begins-append (x ∷ xs) ys h k = h

is_empty-ne : (a : Bytes) → is_empty a ≡ false → a ≢ []
is_empty-ne [] h = λ e. cc
is_empty-ne (x ∷ xs) h = λ e. cc

is_empty-of-ne : (a : Bytes) → a ≢ [] → is_empty a ≡ false
is_empty-of-ne [] h = absurd (h refl)
is_empty-of-ne (x ∷ xs) h = refl

parse_authority_sound :
    (s : Bytes) {a q : Bytes} → parse_authority s ≡ absolute a q → HasAuthority s a q
unfolding parse_authority ends_authority
parse_authority_sound s {a} {q} h =
    let n = find_or_end ends_authority s in
    let rest = drop n s in
    let m = find_or_end is_fragment rest in
    let (there, h1) = passes (is_empty (take n s)) malformed (λ e. cc) h in
    let (plain, h2) = passes (any is_at (take n s)) malformed (λ e. cc) h1 in
    let same_a : take n s ≡ a = cc in
    let same_q : origin_path (take m rest) ≡ q = cc in
    record {
      path_query = take m rest;
      fragment = drop m rest;
      parts = rw (take-append-drop m rest, ← same_a) (sym (take-append-drop n s));
      some_authority = rw (← same_a) (is_empty-ne (take n s) there);
      in_authority = rw (← same_a) (all-take-find ends_authority s);
      no_userinfo = rw (← same_a) (not-any is_at (take n s) plain);
      in_path = all-take-find is_fragment rest;
      fragment_begins = Begins-drop-find is_fragment rest;
      rewritten = subst (OriginForm (take m rest)) same_q (
          origin_path-OriginForm (take m rest)
            (Begins-take ends_authority m rest (Begins-drop-find ends_authority s))
            (all-take-find is_fragment rest));
    }

parse_authority_complete : (s a q : Bytes) → HasAuthority s a q → parse_authority s ≡ absolute a q
unfolding parse_authority ends_authority
parse_authority_complete s a q g =
    let rest = g.path_query ++ g.fragment in
    let ends : find_or_end ends_authority (a ++ rest) ≡ length a =
      find_or_end-append ends_authority a rest g.in_authority
        (Begins-append g.path_query g.fragment (OriginForm-Begins g.rewritten) g.fragment_begins) in
    let stops : find_or_end is_fragment rest ≡ length g.path_query =
      find_or_end-append is_fragment g.path_query g.fragment g.in_path g.fragment_begins in
    rw (
      g.parts,
      ends,
      take-length a rest,
      drop-length a rest,
      is_empty-of-ne a g.some_authority,
      any-not is_at a g.no_userinfo,
      stops,
      take-length g.path_query g.fragment,
      OriginForm-origin_path g.rewritten,
    )

-- `t` is a scheme, `://` and what has an authority.
pub record HasScheme (t a q : Bytes) : Type 0 where
  pub scheme : Bytes
  pub hier_part : Bytes
  pub splits : t ≡ scheme ++ (codes "://" ++ hier_part)
  pub in_scheme : all scheme_char scheme ≡ true
  pub has_authority : HasAuthority hier_part a q

drop-drop : (n k : ℕ) (xs : Bytes) → drop (n + k) xs ≡ drop k (drop n xs)
drop-drop zero k xs = let e : 0 + k ≡ k = omega arith in rw e
drop-drop (suc n) zero [] = let e : suc n + 0 ≡ suc n = omega arith in rw e
drop-drop (suc n) (suc k) [] = let e : suc n + suc k ≡ suc (n + suc k) = omega arith in rw e
drop-drop (suc n) k (x ∷ xs) =
    let e : suc n + k ≡ suc (n + k) = omega arith in rw e (drop-drop n k xs)

parse_scheme_sound : (t : Bytes) {a q : Bytes} → parse_scheme t ≡ absolute a q → HasScheme t a q
unfolding parse_scheme
parse_scheme_sound t {a} {q} h =
    let n = find_or_end ends_scheme t in
    let (c, h1) =
      passes (ltb (length t) (n + 3) || not (bytes_eq (take 3 (drop n t)) (codes "://")))
        maybe_authority (λ e. cc) h in
    let equal : bytes_eq (take 3 (drop n t)) (codes "://") ≡ true = ground (arith, c) in
    let separator : take 3 (drop n t) ≡ codes "://" =
      (bytes_eq_iff (take 3 (drop n t)) (codes "://")).0 equal in
    record {
      scheme = take n t;
      hier_part = drop (n + 3) t;
      splits =
          sym (take-append-drop n t)
          ∙ ap (◌++◌ (take n t)) (
              sym (take-append-drop 3 (drop n t))
              ∙ ap (λ x. x ++ drop 3 (drop n t)) separator
              ∙ ap (◌++◌ (codes "://")) (sym (drop-drop n 3 t)));
      in_scheme = sym (scheme_chars (take n t)) ∙ all-take-find ends_scheme t;
      has_authority = parse_authority_sound (drop (n + 3) t) h1;
    }

parse_scheme_complete : (t a q : Bytes) → HasScheme t a q → parse_scheme t ≡ absolute a q
unfolding parse_scheme ends_scheme is_ascii_alphanumeric
parse_scheme_complete t a q g =
    let n = length g.scheme in
    let rest = codes "://" ++ g.hier_part in
    let ends : find_or_end ends_scheme (g.scheme ++ rest) ≡ n =
      find_or_end-append ends_scheme g.scheme rest (scheme_chars g.scheme ∙ g.in_scheme) refl in
    let long : ltb (length (g.scheme ++ rest)) (n + 3) ≡ false =
      ground (arith, length-append g.scheme rest) in
    let behind : drop (n + 3) (g.scheme ++ rest) ≡ g.hier_part =
      drop-drop n 3 (g.scheme ++ rest) ∙ ap (drop 3) (drop-length g.scheme rest) in
    let same : bytes_eq (take 3 rest) (codes "://") ≡ true =
      (bytes_eq_iff (take 3 rest) (codes "://")).1 refl in
    rw (g.splits, ends, long, drop-length g.scheme rest, same, behind)
      (parse_authority_complete g.hier_part a q g.has_authority)

-- The first byte of `t` is a letter.
pub record IsAbsolute (t a q : Bytes) : Type 0 where
  pub first : ℕ
  pub others : Bytes
  pub begins : t ≡ first ∷ others
  pub letter : is_ascii_alphabetic first ≡ true
  pub has_scheme : HasScheme t a q

empty-ne-absolute : {a q : Bytes} → empty ≢ absolute a q
empty-ne-absolute = λ e. cc

classify_absolute_sound : (t : Bytes) {a q : Bytes} → classify t ≡ absolute a q → IsAbsolute t a q
unfolding classify classify_first parse_absolute_form bytes_eq
classify_absolute_sound [] h = absurd (empty-ne-absolute h)
classify_absolute_sound (b ∷ r) h =
    let (c, h1) = passes (bytes_eq (b ∷ r) (codes "*")) asterisk (λ e. cc) h in
    let (c2, h2) = passes (b == b'/') origin (λ e. cc) h1 in
    let (letter, h3) = passes_test (is_ascii_alphabetic b) h2 in
    let (c4, h4) = passes (not (is_ascii_alphabetic b)) malformed (λ e. cc) h3 in
    record {
      first = b;
      others = r;
      begins = refl;
      letter = letter;
      has_scheme = parse_scheme_sound (b ∷ r) h4;
    }

classify_absolute_complete :
    (b : ℕ) (r : Bytes) {a q : Bytes}
    → is_ascii_alphabetic b ≡ true
    → HasScheme (b ∷ r) a q
    → classify (b ∷ r) ≡ absolute a q
unfolding classify classify_first parse_absolute_form bytes_eq is_ascii_alphabetic
classify_absolute_complete b r {a} {q} letter g =
    let star : (b == b'*') ≡ false = ground (arith, letter) in
    let slash : (b == b'/') ≡ false = ground (arith, letter) in
    rw (star, slash, letter) (parse_scheme_complete (b ∷ r) a q g)

-- `classify` finds an absolute form with authority `a` exactly if the target is a scheme that begins with
-- a letter, `://`, the authority `a` (not empty, no `@`), perhaps a path and query, and perhaps a
-- fragment. What it returns for the origin form is the path and query, with a `/` in front if
-- the path is empty, and without the fragment.
pub classify-IsAbsolute : (t a q : Bytes) → (classify t ≡ absolute a q) ↔ IsAbsolute t a q
classify-IsAbsolute t a q = (
  classify_absolute_sound t,
  λ g. rw g.begins (
      classify_absolute_complete g.first g.others g.letter
        (subst (λ x. HasScheme x a q) g.begins g.has_scheme)),
)
