-- ===== src/Body/Writer/Chunked/Decodes.antt =====
-- A decoder of chunked bodies, apart from the program (RFC 9112 section 7.1), and the round trip of what the
-- writer sends.
use jrpxy.Prelude.{
  ℕ, zero, suc, ◌+◌, ◌<◌, true, false, List, [], ◌∷◌, ◌++◌, Option, none, some, Bytes, codes, ◌==◌,
  ◌≡◌, refl, ap, ◌∙◌, arith, if◌then◌else◌, all, All, length, take, drop, append_assoc, to_hex,
  from_hex, from_hex-to_hex, to_hex_digits, to_hex-ne-nil, is_ascii_hexdigit, is_ascii_digit,
  bytes_eq, take-length, drop-length,
}
use jrpxy.HttpMessage.Header.{Field, Headers}
use jrpxy.HttpMessage.Heads.{crlf, field_lines}
use jrpxy.HttpMessage.Builder.Valid.{IsValidField}
use jrpxy.HttpMessage.Heads.Reads.{
  read_line, read_fields, read_line-crlf, read_fields_lem, not_cr, trimmed_values,
}
use jrpxy.Body.Writer.Chunked.{chunk_header, footer_of, trailer_lines, terminal_bytes}
use jrpxy.Body.Writer.Chunked.Moves.{encode, encode_chunk, concat}

-- A size: hexadecimal digits.
unfoldable pub read_size : Bytes → Option ℕ
read_size [] = none
read_size (c ∷ r) = if all is_ascii_hexdigit (c ∷ r) then some (from_hex 0 (c ∷ r)) else none

-- The data of a chunk of size `n`, which CRLF must follow.
unfoldable pub read_data : ℕ → Bytes → Option (Bytes × Bytes)
read_data n bs =
    if bytes_eq (take 2 (drop n bs)) crlf then some (take n bs, drop 2 (drop n bs)) else none

-- The body, the trailer fields, and what follows. The number bounds the chunks, and the fields.
unfoldable pub decode : ℕ → Bytes → Option (Bytes × List Field × Bytes)
decode zero bs = none
decode (suc k) bs = elim (read_line bs) [
  | none ↦ none
  | some (line, rest) ↦ elim (read_size line) [
    | none ↦ none
    | some zero ↦ elim (read_fields (suc k) rest) [
      | none ↦ none
      | some (fields, rest') ↦ some ([], fields, rest')
    ]
    | some (suc n) ↦ elim (read_data (suc n) rest) [
      | none ↦ none
      | some (chunk, rest') ↦ elim (decode k rest') [
        | none ↦ none
        | some (body, fields, rest'') ↦ some (chunk ++ body, fields, rest'')
      ]
    ]
  ]
]

hexdigit-not_cr : (b : ℕ) → is_ascii_hexdigit b ≡ true → not_cr b ≡ true
unfolding is_ascii_hexdigit is_ascii_digit
hexdigit-not_cr b h = ground arith

hexdigits-not_cr : (bs : Bytes) → all is_ascii_hexdigit bs ≡ true → all not_cr bs ≡ true
hexdigits-not_cr [] h = refl
hexdigits-not_cr (b ∷ bs) h = ground (arith, hexdigit-not_cr b, hexdigits-not_cr bs)

read_size-digits :
    (bs : Bytes)
    → all is_ascii_hexdigit bs ≡ true
    → (bs ≡ [] → ⊥)
    → read_size bs ≡ some (from_hex 0 bs)
unfolding read_size
read_size-digits [] h ne = absurd (ne refl)
read_size-digits (b ∷ bs) h ne = rw h refl

read_size-to_hex : (n : ℕ) → read_size (to_hex n) ≡ some n
read_size-to_hex n =
    read_size-digits (to_hex n) (to_hex_digits n) (to_hex-ne-nil n) ∙ ap some (from_hex-to_hex n)

read_data_lem : (c more : Bytes) → read_data (length c) (c ++ (crlf ++ more)) ≡ some (c, more)
unfolding read_data bytes_eq
read_data_lem c more = rw (drop-length c (crlf ++ more), take-length c (crlf ++ more)) refl

decode-chunk :
    (k n : ℕ) (bs rest line chunk more : Bytes) (body rest' : Bytes) (fields : List Field)
    → read_line bs ≡ some (line, rest)
    → read_size line ≡ some (suc n)
    → read_data (suc n) rest ≡ some (chunk, more)
    → decode k more ≡ some (body, fields, rest')
    → decode (suc k) bs ≡ some (chunk ++ body, fields, rest')
unfolding decode
decode-chunk k n bs rest line chunk more body rest' fields p q r s =
    rw (p, decode) (rw (q, r) (rw s refl))

decode-last :
    (k : ℕ) (bs rest line rest' : Bytes) (fields : List Field)
    → read_line bs ≡ some (line, rest)
    → read_size line ≡ some 0
    → read_fields (suc k) rest ≡ some (fields, rest')
    → decode (suc k) bs ≡ some ([], fields, rest')
unfolding decode
decode-last k bs rest line rest' fields p q r = rw (p, decode) (rw (q, r) refl)

trailer_lines-fields : (fs : List Field) → trailer_lines fs ≡ field_lines fs
unfolding trailer_lines
trailer_lines-fields [] = refl
trailer_lines-fields ((n, v) ∷ fs) = rw (trailer_lines-fields fs) refl

header_suc : (n : ℕ) → (chunk_header (suc n) ≡ to_hex (suc n) ++ crlf) × (footer_of (suc n) ≡ crlf)
unfolding chunk_header footer_of
header_suc n = let large : (suc n == 0) ≡ false = ground arith in (rw large refl, rw large refl)

chunk_shape :
    (b : ℕ) (c more : Bytes)
    → encode_chunk (b ∷ c) ++ more
      ≡ to_hex (length (b ∷ c)) ++ (crlf ++ ((b ∷ c) ++ (crlf ++ more)))
chunk_shape b c more =
    let (head, foot) = header_suc (length c) in rw (head, foot) (simp append_assoc)

decode-encode_chunk :
    (k b : ℕ) (c more body rest : Bytes) (fields : List Field)
    → decode k more ≡ some (body, fields, rest)
    → decode (suc k) (encode_chunk (b ∷ c) ++ more) ≡ some (b ∷ c ++ body, fields, rest)
decode-encode_chunk k b c more body rest fields h = rw (chunk_shape b c more) (
    decode-chunk k (length c) _ ((b ∷ c) ++ (crlf ++ more)) (to_hex (length (b ∷ c))) (b ∷ c) more
      body rest fields
      (read_line-crlf (to_hex (length (b ∷ c))) ((b ∷ c) ++ (crlf ++ more))
        (hexdigits-not_cr (to_hex (length (b ∷ c))) (to_hex_digits (length (b ∷ c)))))
      (read_size-to_hex (length (b ∷ c))) (read_data_lem (b ∷ c) more) h)

decode-terminal :
    (k : ℕ) (trailers : Headers) (rest : Bytes)
    → All IsValidField trailers.headers
    → length trailers.headers < suc k
    → decode (suc k) (terminal_bytes trailers ++ rest)
      ≡ some ([], trimmed_values trailers.headers, rest)
unfolding terminal_bytes
decode-terminal k trailers rest valid lt =
    let shape : terminal_bytes trailers ++ rest
        ≡ codes "0" ++ (crlf ++ (field_lines trailers.headers ++ (crlf ++ rest))) =
      rw trailer_lines-fields (simp append_assoc) in
    rw shape (
      decode-last k _ (field_lines trailers.headers ++ (crlf ++ rest)) (codes "0") rest
        (trimmed_values trailers.headers)
        (read_line-crlf (codes "0") (field_lines trailers.headers ++ (crlf ++ rest)) refl)
        (unfold read_size is_ascii_hexdigit is_ascii_digit from_hex in refl)
        (read_fields_lem (suc k) trailers.headers rest valid lt))

-- What the chunked writer puts on the wire decodes: to the concatenation of the chunks, to the trailer fields
-- with the whitespace round their values taken off, and to what follows. The fields are such as `push`
-- accepts, and the bound on the lines exceeds the number of chunks and fields.
pub decode-encode :
    (k : ℕ) (chunks : List Bytes) (trailers : Headers) (rest : Bytes)
    → All IsValidField trailers.headers
    → length chunks + length trailers.headers < k
    → decode k (encode chunks ++ (terminal_bytes trailers ++ rest))
      ≡ some (concat chunks, trimmed_values trailers.headers, rest)
unfolding chunk_header footer_of
decode-encode zero chunks trailers rest valid lt = absurd (omega (arith, lt))
decode-encode (suc k) [] trailers rest valid lt =
    decode-terminal k trailers rest valid (omega (arith, lt))
decode-encode (suc k) ([] ∷ cs) trailers rest valid lt =
    decode-encode (suc k) cs trailers rest valid (omega (arith, lt))
decode-encode (suc k) ((b ∷ c) ∷ cs) trailers rest valid lt =
    ap (decode (suc k))
      (append_assoc (encode_chunk (b ∷ c)) (encode cs) (terminal_bytes trailers ++ rest))
    ∙ decode-encode_chunk k b c (encode cs ++ (terminal_bytes trailers ++ rest)) (concat cs) rest
        (trimmed_values trailers.headers)
        (decode-encode k cs trailers rest valid (omega (arith, lt)))
