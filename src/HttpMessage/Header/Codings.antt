-- ===== src/HttpMessage/Header/Codings.antt =====
-- http-message/src/header.rs: the Transfer-Encoding lists that `ensure_sole_chunked_coding` accepts.
use jrpxy.Prelude.{
  ℕ, ◌+◌, Bool, true, List, [], ◌∷◌, Bytes, codes, ◌≡◌, ◌↔◌, refl, arith, if◌then◌else◌, is_empty,
  all, length, split, ok, bind-eq-ok, eq_ignore_ascii_case,
}
use jrpxy.Util.Parse.{trim_ows}
use jrpxy.HttpMessage.Header.{count_codings, ensure_sole_chunked_coding}
use jrpxy.HttpMessage.Header.Framed.{is_comma}

-- The elements of a Transfer-Encoding list, trimmed, without the empty ones.
abbrev pub codings : List Bytes → List Bytes
codings [] = []
codings (raw ∷ rest) = if is_empty (trim_ows raw) then codings rest else trim_ows raw ∷ codings rest

abbrev pub is_chunked : Bytes → Bool
is_chunked coding = eq_ignore_ascii_case coding (codes "chunked")

-- The list has one element that is not empty, and that is `chunked`.
abbrev pub IsSoleChunked : Bytes → Type 0
IsSoleChunked value =
    (c : Bytes) × (codings (split is_comma value) ≡ c ∷ []) × (is_chunked c ≡ true)

count_codings-ok :
    (raws : List Bytes) (n m : ℕ)
    → count_codings raws n ≡ ok m
    → (all is_chunked (codings raws) ≡ true) × (m ≡ n + length (codings raws))
unfolding count_codings
count_codings-ok [] n m h = ground arith
count_codings-ok (raw ∷ raws) n m h =
    ground (arith, count_codings-ok raws n m, count_codings-ok raws (n + 1) m)

count_codings-all :
    (raws : List Bytes) (n : ℕ)
    → all is_chunked (codings raws) ≡ true
    → count_codings raws n ≡ ok (n + length (codings raws))
unfolding count_codings
count_codings-all [] n h = ground arith
count_codings-all (raw ∷ raws) n h =
    ground (arith, count_codings-all raws n, count_codings-all raws (n + 1))

sole :
    (cs : List Bytes)
    → all is_chunked cs ≡ true
    → length cs ≡ 1
    → (c : Bytes) × (cs ≡ c ∷ []) × (is_chunked c ≡ true)
sole [] a h = absurd (omega arith)
sole (c ∷ []) a h = (c, refl, ground arith)
sole (c ∷ d ∷ cs) a h = absurd (omega arith)

pub ensure_sole_chunked_coding_iff :
    (value : Bytes) → (ensure_sole_chunked_coding value ≡ ok tt) ↔ IsSoleChunked value
unfolding ensure_sole_chunked_coding
ensure_sole_chunked_coding_iff value = (only_if, if_so)
  where
    only_if : ensure_sole_chunked_coding value ≡ ok tt → IsSoleChunked value
    only_if h =
        let (m, counted, one) = bind-eq-ok (count_codings (split is_comma value) 0) _ h in
        let (a, e) = count_codings-ok (split is_comma value) 0 m counted in
        sole (codings (split is_comma value)) a (ground arith)

    if_so : IsSoleChunked value → ensure_sole_chunked_coding value ≡ ok tt
    if_so (c, e, a) = rw (count_codings-all (split is_comma value) 0 (rw (e, a) refl), e) refl
