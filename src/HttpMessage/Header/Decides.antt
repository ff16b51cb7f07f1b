-- ===== src/HttpMessage/Header/Decides.antt =====
-- http-message/src/header.rs: the header sets for which `framing` gives each verdict.
use jrpxy.Prelude.{
  ℕ, Bool, true, false, List, [], ◌∷◌, ◌++◌, Option, none, some, Bytes, ◌≡◌, ◌≢◌, ◌↔◌, refl, sym,
  ap, ◌∙◌, arith, inl, inr, ◌⊎◌, all, All, split, split-ne-nil, ok, bind-eq-ok, is_ascii_digit,
  parse_u64,
}
use jrpxy.Util.Parse.{trim_ows}
use jrpxy.HttpMessage.Framing.{ParsedFraming, chunked, no_framing}
use jrpxy.HttpMessage.Header.{
  Field, Headers, scan_length, ensure_sole_chunked_coding, framing_of, framing,
}
use jrpxy.HttpMessage.Header.Codings.{IsSoleChunked, ensure_sole_chunked_coding_iff}
use jrpxy.HttpMessage.Header.Framed.{
  is_cl, is_te, is_comma, tagged, cl_elements, values, read_all, te_of, framing_lem,
}

-- The element is a decimal number, with digits only, whose value is `n` and fits a `u64`.
abbrev pub Says : ℕ → Field → Type 0
Says n e = (all is_ascii_digit e.1 ≡ true) × (parse_u64 e.1 ≡ some n)

scan_length_ok :
    (value t : Bytes) (cl : Option ℕ) {c : Option ℕ}
    → scan_length value t cl ≡ ok c
    → (n : ℕ) × (c ≡ some n) × Says n (value, t) × ((cl ≡ none) ⊎ (cl ≡ some n))
unfolding scan_length
scan_length_ok value t cl h = ground arith

scan_length-Says :
    (n : ℕ) (value t : Bytes) (cl : Option ℕ)
    → Says n (value, t)
    → (cl ≡ none) ⊎ (cl ≡ some n)
    → scan_length value t cl ≡ ok (some n)
unfolding scan_length
scan_length-Says n value t cl h k = ground arith

-- A pass that ends with a length: every element says it, and it was there before or some element is.
read_all-some :
    (es : List Field) (cl : Option ℕ) (n : ℕ)
    → read_all es cl ≡ ok (some n)
    → All (Says n) es × ((cl ≡ some n) ⊎ ((cl ≡ none) × (es ≢ [])))
unfolding read_all
read_all-some [] cl n h = ground arith
read_all-some (e ∷ es) cl n h =
    let (c, first, later) = bind-eq-ok (scan_length e.0 e.1 cl) (read_all es) h in
    let (m, is_m, says, before) = scan_length_ok e.0 e.1 cl first in
    let (rest, same) = read_all-some es c n later in
    let equal : m ≡ n = ground arith in ((rw (← equal) says, rest), ground arith)

read_all-none :
    (es : List Field) (cl : Option ℕ) → read_all es cl ≡ ok none → (es ≡ []) × (cl ≡ none)
unfolding read_all
read_all-none [] cl h = ground arith
read_all-none (e ∷ es) cl h =
    let (c, first, later) = bind-eq-ok (scan_length e.0 e.1 cl) (read_all es) h in
    let (m, is_m, says, before) = scan_length_ok e.0 e.1 cl first in
    let (rest, gone) = read_all-none es c later in cc

read_all-Says :
    (es : List Field) (cl : Option ℕ) (n : ℕ)
    → All (Says n) es
    → (cl ≡ some n) ⊎ ((cl ≡ none) × (es ≢ []))
    → read_all es cl ≡ ok (some n)
unfolding read_all
read_all-Says [] cl n a h = ground arith
read_all-Says (e ∷ es) cl n a h =
    rw (scan_length-Says n e.0 e.1 cl a.0 (ground arith))
      (read_all-Says es (some n) n a.1 (inl refl))

-- A Content-Length field carries at least one element.
tagged-ne-nil :
    (value : Bytes) (raws : List Bytes) (es : List Field) → raws ≢ [] → tagged value raws ++ es ≢ []
tagged-ne-nil value [] es h e = h refl
tagged-ne-nil value (raw ∷ raws) es h e = cc

cl_elements-nil : (fs : List Field) → (cl_elements fs ≡ []) ↔ (values is_cl fs ≡ [])
cl_elements-nil [] = (λ _. refl, λ _. refl)
cl_elements-nil (f ∷ fs) = ground (
  arith,
  cl_elements-nil fs,
  tagged-ne-nil (trim_ows f.1) (split is_comma (trim_ows f.1)) (cl_elements fs)
      (split-ne-nil is_comma (trim_ows f.1)),
)

te_of-false : (vs : List Bytes) → te_of vs ≡ ok false → vs ≡ []
te_of-false [] h = refl
te_of-false (v ∷ []) h = ground arith
te_of-false (v ∷ w ∷ vs) h = cc

te_of-true :
    (vs : List Bytes)
    → te_of vs ≡ ok true
    → (v : Bytes) × (vs ≡ v ∷ []) × (ensure_sole_chunked_coding v ≡ ok tt)
te_of-true [] h = cc
te_of-true (v ∷ []) h = (v, refl, (bind-eq-ok (ensure_sole_chunked_coding v) (λ _. ok true) h).1)
te_of-true (v ∷ w ∷ vs) h = cc

-- A verdict comes from what the two passes found.
record Found (h : Headers) (f : ParsedFraming) : Type 0 where
  cl : Option ℕ
  te : Bool
  read : read_all (cl_elements h.headers) none ≡ ok cl
  coded : te_of (values is_te h.headers) ≡ ok te
  verdict : framing_of cl te ≡ ok f

framing-Found : (h : Headers) (f : ParsedFraming) → framing h ≡ ok f → Found h f
framing-Found h f e =
    let (c, read, e') =
      bind-eq-ok (read_all (cl_elements h.headers) none) _ (sym (framing_lem h) ∙ e) in
    let (t, coded, verdict) = bind-eq-ok (te_of (values is_te h.headers)) (framing_of c) e' in
    record { cl = c; te = t; read = read; coded = coded; verdict = verdict }

Found-framing : (h : Headers) (f : ParsedFraming) → Found h f → framing h ≡ ok f
Found-framing h f found = framing_lem h ∙ rw (found.read, found.coded) found.verdict

framing_of_cases :
    (cl : Option ℕ) (te : Bool) (f : ParsedFraming)
    → framing_of cl te ≡ ok f
    → ((n : ℕ) × (f ≡ ParsedFraming.length n) × (cl ≡ some n) × (te ≡ false))
      ⊎ ((f ≡ chunked) × (cl ≡ none) × (te ≡ true))
      ⊎ ((f ≡ no_framing) × (cl ≡ none) × (te ≡ false))
unfolding framing_of
framing_of_cases none true f h = ground arith
framing_of_cases none false f h = ground arith
framing_of_cases (some n) true f h = cc
framing_of_cases (some n) false f h = inl (n, ground arith, refl, refl)

-- `framing` answers `length n` exactly if there is a Content-Length field, there is no
-- Transfer-Encoding field, and each element of each Content-Length list, trimmed, is made of digits
-- only and reads as `n`, which fits 64 bits.
pub framing-length :
    (h : Headers) (n : ℕ)
    → (framing h ≡ ok (ParsedFraming.length n)) ↔ (
        (values is_cl h.headers ≢ [])
        × (values is_te h.headers ≡ [])
        × All (Says n) (cl_elements h.headers))
unfolding framing_of
framing-length h n = (only_if, if_so)
  where
    only_if :
        framing h ≡ ok (ParsedFraming.length n)
        → (values is_cl h.headers ≢ [])
          × (values is_te h.headers ≡ [])
          × All (Says n) (cl_elements h.headers)
    only_if e =
        let f = framing-Found h (ParsedFraming.length n) e in
        let split_verdict = framing_of_cases f.cl f.te (ParsedFraming.length n) f.verdict in
        let has : f.cl ≡ some n = ground arith in
        let no_te : f.te ≡ false = ground arith in
        let (says, before) = read_all-some (cl_elements h.headers) none n (f.read ∙ ap ok has) in
        (
          (λ gone. ground (arith, (cl_elements-nil h.headers).1 gone)),
          te_of-false (values is_te h.headers) (f.coded ∙ ap ok no_te),
          says,
        )

    if_so :
        (values is_cl h.headers ≢ [])
          × (values is_te h.headers ≡ [])
          × All (Says n) (cl_elements h.headers)
        → framing h ≡ ok (ParsedFraming.length n)
    if_so (some_cl, no_te, says) = Found-framing h (ParsedFraming.length n) (record {
      cl = some n;
      te = false;
      read =
          read_all-Says (cl_elements h.headers) none n says
            (inr (refl, λ e. some_cl ((cl_elements-nil h.headers).0 e)));
      coded = rw no_te;
      verdict = refl;
    })

-- `framing` answers `chunked` exactly if there is no Content-Length field, and there is one
-- Transfer-Encoding field whose list, empty elements aside, is the single coding `chunked`.
pub framing-chunked :
    (h : Headers)
    → (framing h ≡ ok chunked) ↔ (
        (values is_cl h.headers ≡ [])
        × (v : Bytes) × (values is_te h.headers ≡ v ∷ [])
        × IsSoleChunked v)
framing-chunked h = (only_if, if_so)
  where
    only_if :
        framing h ≡ ok chunked
        → (values is_cl h.headers ≡ [])
          × (v : Bytes) × (values is_te h.headers ≡ v ∷ [])
          × IsSoleChunked v
    only_if e =
        let f = framing-Found h chunked e in
        let split_verdict = framing_of_cases f.cl f.te chunked f.verdict in
        let no_cl : f.cl ≡ none = ground arith in
        let has : f.te ≡ true = ground arith in
        let (none_read, _) = read_all-none (cl_elements h.headers) none (f.read ∙ ap ok no_cl) in
        let (v, one, chunks) = te_of-true (values is_te h.headers) (f.coded ∙ ap ok has) in
        (
          (cl_elements-nil h.headers).0 none_read,
          v,
          one,
          (ensure_sole_chunked_coding_iff v).0 chunks,
        )

    if_so :
        ((values is_cl h.headers ≡ [])
          × (v : Bytes) × (values is_te h.headers ≡ v ∷ [])
          × IsSoleChunked v)
        → framing h ≡ ok chunked
    if_so (no_cl, v, one, chunks) = Found-framing h chunked (record {
      cl = none;
      te = true;
      read = unfold read_all in rw ((cl_elements-nil h.headers).1 no_cl);
      coded = rw (one, (ensure_sole_chunked_coding_iff v).1 chunks);
      verdict = unfold framing_of in refl;
    })

-- `framing` answers `no_framing` exactly if no field is named Content-Length or Transfer-Encoding.
pub framing-no_framing :
    (h : Headers)
    → (framing h ≡ ok no_framing) ↔ ((values is_cl h.headers ≡ []) × (values is_te h.headers ≡ []))
framing-no_framing h = (only_if, if_so)
  where
    only_if :
        framing h ≡ ok no_framing → (values is_cl h.headers ≡ []) × (values is_te h.headers ≡ [])
    only_if e =
        let f = framing-Found h no_framing e in
        let split_verdict = framing_of_cases f.cl f.te no_framing f.verdict in
        let no_cl : f.cl ≡ none = ground arith in
        let no_te : f.te ≡ false = ground arith in
        let (none_read, _) = read_all-none (cl_elements h.headers) none (f.read ∙ ap ok no_cl) in
        (
          (cl_elements-nil h.headers).0 none_read,
          te_of-false (values is_te h.headers) (f.coded ∙ ap ok no_te),
        )

    if_so :
        (values is_cl h.headers ≡ []) × (values is_te h.headers ≡ []) → framing h ≡ ok no_framing
    if_so (no_cl, no_te) = Found-framing h no_framing (record {
      cl = none;
      te = false;
      read = unfold read_all in rw ((cl_elements-nil h.headers).1 no_cl);
      coded = rw no_te;
      verdict = unfold framing_of in refl;
    })
