-- ===== src/HttpMessage/Connection.antt =====
-- http-message/src/header.rs: the tokens of the Connection header field and what they say of the
-- reuse of a connection. `TokenParser` is its remaining bytes; `next` gives an item and what is left.
pub mod Tokens
pub mod Persistent
use jrpxy.Prelude.{
  ℕ, zero, suc, ◌+◌, Bool, true, false, not, ◌&&◌, ◌||◌, List, [], ◌∷◌, ◌++◌, Option, none, some,
  Bytes, codes, ◌==◌, if◌then◌else◌, is_empty, length, find_or_end, take, drop, Result, ok, err,
  ◌>>=◌, eq_ignore_ascii_case,
}
use jrpxy.Util.Parse.Tables.{is_valid_tchar}
use jrpxy.HttpMessage.Version.{HttpVersion, http10, http11}
use jrpxy.HttpMessage.Header.{Field, Headers, get_header}

pub data ConnectionTokenParserError : Type 0 where
  illegal_char : ℕ → ConnectionTokenParserError

abbrev pub Item : Type 0
Item = Result Bytes ConnectionTokenParserError

skip_whitespace : Bytes → Bytes
skip_whitespace [] = []
skip_whitespace (b ∷ r) = if b == b'\t' || b == b' ' then skip_whitespace r else b ∷ r

-- From the whitespace behind a token to the start of the next element.
skip_comma : Bytes → Bytes → Result (Bytes × Bytes) ConnectionTokenParserError
skip_comma tok [] = ok (tok, [])
skip_comma tok (next ∷ r) =
    if not (next == b',') then err (illegal_char next) else ok (tok, skip_whitespace r)

abbrev is_not_tchar : ℕ → Bool
is_not_tchar b = not (is_valid_tchar b)

-- One turn of the loop of `next`, on bytes that are not empty.
take_token : Bytes → Result (Bytes × Bytes) ConnectionTokenParserError
unfolding skip_whitespace skip_comma
take_token inner =
    let ix_first_non_tok_char = find_or_end is_not_tchar inner in
    skip_comma (take ix_first_non_tok_char inner)
      (skip_whitespace (drop ix_first_non_tok_char inner))

-- The loop. Every turn takes a byte at least, so fuel above the length is enough.
next : ℕ → Bytes → Option Item × Bytes
next zero inner = (none, inner)
next (suc fuel) [] = (none, [])
next (suc fuel) (b ∷ r) = elim (take_token (b ∷ r)) [
  | err e ↦ (some (err e), [])
  | ok (tok, rest) ↦
      let again = next fuel rest in if is_empty tok then again else (some (ok tok), rest)
]

-- All that the iterator yields.
tokens : ℕ → Bytes → List Item
unfolding next take_token
tokens zero inner = []
tokens (suc fuel) inner =
    let (item, rest) = next (suc fuel) inner in
    elim item [ none ↦ [] | some i ↦ i ∷ tokens fuel rest ]

unfoldable pub tokens_of : Bytes → List Item
unfolding tokens
tokens_of value = tokens (length value + 1) value

flat_tokens : List Field → List Item
flat_tokens [] = []
flat_tokens (f ∷ fs) = tokens_of f.1 ++ flat_tokens fs

unfoldable pub connection_tokens : Headers → List Item
unfolding flat_tokens
connection_tokens h = flat_tokens (get_header h (codes "connection"))

-- The loop of `connection_is_persistent`, with its two variables.
scan_tokens : List Item → Bool → Bool → Result (Bool × Bool) ConnectionTokenParserError
scan_tokens [] close keep_alive = ok (close, keep_alive)
scan_tokens (item ∷ items) close keep_alive = do
  token ← item
  scan_tokens items (eq_ignore_ascii_case token (codes "close") || close) (
      if eq_ignore_ascii_case token (codes "close")
      then keep_alive
      else eq_ignore_ascii_case token (codes "keep-alive") || keep_alive)

unfoldable pub connection_is_persistent :
    Headers → HttpVersion → Result Bool ConnectionTokenParserError
unfolding scan_tokens
connection_is_persistent h version = do
  s ← scan_tokens (connection_tokens h) false false
  ok (elim version [ http11 ↦ not s.0 | http10 ↦ s.1 && not s.0 ])
