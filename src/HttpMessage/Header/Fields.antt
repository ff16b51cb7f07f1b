-- ===== src/HttpMessage/Header/Fields.antt =====
-- http-message/src/header.rs: the operations that change a header set.
use jrpxy.Prelude.{
  ℕ, ◌==◌, ◌&&◌, ◌||◌, is_empty, length, all-append, all, take, find_or_end, find_or_end-append,
  take-length, codes, Bytes, Bool, true, false, not, if◌then◌else◌, List, [], ◌∷◌, ◌++◌, ◌≡◌, ◌≢◌,
  ◌↔◌, refl, sym, ap, ◌∙◌, arith, Result, ok, err, keep_if, append-nil, append_assoc, Bool-cases,
  inl, inr,
}
use jrpxy.Util.Parse.Tables.{is_valid_tchar, is_valid_field_vchar}
use jrpxy.Util.Parse.{is_valid_field_name, is_valid_field_value}
use jrpxy.HttpMessage.Header.{
  Field, Headers, FieldError, invalid_name, invalid_value, push, push_raw, partition, remove,
}

partition-keep_if :
    (pred : Field → Bool) (xs keep removed : List Field)
    → partition pred xs keep removed
      ≡ (keep ++ keep_if (λ f. not (pred f)) xs, removed ++ keep_if pred xs)
unfolding partition
partition-keep_if pred [] keep removed = rw (append-nil keep, append-nil removed) refl
partition-keep_if pred (x ∷ xs) keep removed = elim (Bool-cases (pred x)) [
  | inl h ↦ rw h (
      partition-keep_if pred xs keep (removed ++ x ∷ [])
      ∙ rw (append_assoc removed (x ∷ []) (keep_if pred xs)) refl)
  | inr h ↦ rw h (
      partition-keep_if pred xs (keep ++ x ∷ []) removed
      ∙ rw (append_assoc keep (x ∷ []) (keep_if (λ f. not (pred f)) xs)) refl)
]

-- `remove` splits a header set in two: the fields that the predicate picks are returned, the others
-- stay, and both keep their order.
pub remove-keep_if :
    (pred : Field → Bool) (h : Headers)
    → ((remove pred h).0.headers ≡ keep_if (λ f. not (pred f)) h.headers)
      × ((remove pred h).1.headers ≡ keep_if pred h.headers)
unfolding remove
remove-keep_if pred h =
    let both = partition-keep_if pred h.headers [] [] in (ap (λ p. p.0) both, ap (λ p. p.1) both)

-- The fields of a success.
fields_of : Result Headers FieldError → List Field
fields_of (ok h) = h.headers
fields_of (err e) = []

same_fields : {h h' : Headers} → h.headers ≡ h'.headers → h ≡ h'
same_fields e = ap (λ (fs : List Field). record { headers = fs }) e

tested :
    (a b : Bool) (h h' : Headers)
    → ((if not a then err invalid_name else if not b then err invalid_value else ok h) ≡ ok h')
      ↔ ((a ≡ true) × (b ≡ true) × (h'.headers ≡ h.headers))
unfolding fields_of
tested true true h h' =
    (λ e. (refl, refl, ap fields_of (sym e)), λ e. ap ok (same_fields (sym e.2)))
tested true false h h' = (λ e. cc, λ e. cc)
tested false b h h' = (λ e. cc, λ e. cc)

-- `push` succeeds exactly if the name is a valid field name and the value a valid field value, and then
-- the field is the new last one and the others stay as they are.
pub push_iff :
    (h h' : Headers) (name value : Bytes)
    → (push h name value ≡ ok h') ↔ (
        (is_valid_field_name name ≡ true)
        × (is_valid_field_value value ≡ true)
        × (h'.headers ≡ h.headers ++ ((name, value) ∷ [])))
unfolding push push_raw
push_iff h h' name value =
    tested (is_valid_field_name name) (is_valid_field_value value) (push_raw h name value) h'

clash : false ≢ true
clash = λ e. cc

split_all : (a b : Bool) → a && b ≡ true → (a ≡ true) × (b ≡ true)
split_all true b h = (refl, h)
split_all false b h = absurd (clash h)

-- Where `p` does not hold of `c`, a list on which it holds has no `c`.
absent :
    (p : ℕ → Bool) (c : ℕ) (xs : Bytes)
    → p c ≡ false
    → all p xs ≡ true
    → all (λ b. not (b == c)) xs ≡ true
absent p c [] fails h = refl
absent p c (x ∷ xs) fails h =
    let (here, there) = split_all (p x) (all p xs) h in
    elim (Bool-cases (x == c)) [
      | inl e ↦
          let same : x ≡ c = ground arith in absurd (clash (sym fails ∙ ap p (sym same) ∙ here))
      | inr e ↦ rw e (absent p c xs fails there)
    ]

-- The line of a field in the head of a message: no CR, LF or NUL, and its first colon ends the name.
pub record IsFieldLine (name line : Bytes) : Type 0 where
  pub no_cr : all (λ b. not (b == 13)) line ≡ true
  pub no_lf : all (λ b. not (b == 10)) line ≡ true
  pub no_nul : all (λ b. not (b == 0)) line ≡ true
  pub named : take (find_or_end (λ b. b == b':') line) line ≡ name

abbrev in_value : ℕ → Bool
in_value b = is_valid_field_vchar b || b == b' ' || b == b'\t'

line_without :
    (c : ℕ) (name value : Bytes)
    → is_valid_tchar c ≡ false
    → in_value c ≡ false
    → all (λ b. not (b == c)) (codes ": ") ≡ true
    → all is_valid_tchar name ≡ true
    → all in_value value ≡ true
    → all (λ b. not (b == c)) (name ++ (codes ": " ++ value)) ≡ true
line_without c name value f g middle h k =
    all-append (λ b. not (b == c)) name (codes ": " ++ value)
    ∙ rw (absent is_valid_tchar c name f h) (
        all-append (λ b. not (b == c)) (codes ": ") value
        ∙ rw (middle, absent in_value c value g k) refl)

-- The line `name: value` of a field that `push` accepts has no CR, LF or NUL, so it cannot start
-- another line, and the name that a reader finds in front of the first colon is the field's.
pub push-IsFieldLine :
    (h h' : Headers) (name value : Bytes)
    → push h name value ≡ ok h'
    → IsFieldLine name (name ++ (codes ": " ++ value))
unfolding is_valid_field_name is_valid_field_value is_valid_tchar is_valid_field_vchar
push-IsFieldLine h h' name value e =
    let (valid_name, chars, _) = (push_iff h h' name value).0 e in
    let (_, tchars) = split_all (not (is_empty name)) (all is_valid_tchar name) valid_name in
    let colon : find_or_end (λ b. b == b':') (name ++ (codes ": " ++ value)) ≡ length name =
      find_or_end-append (λ b. b == b':') name (codes ": " ++ value)
        (absent is_valid_tchar b':' name refl tchars) refl in
    record {
      no_cr = line_without 13 name value refl refl refl tchars chars;
      no_lf = line_without 10 name value refl refl refl tchars chars;
      no_nul = line_without 0 name value refl refl refl tchars chars;
      named = rw colon (take-length name (codes ": " ++ value));
    }
