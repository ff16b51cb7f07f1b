-- ===== src/HttpMessage/Connection/Persistent.antt =====
-- http-message/src/header.rs: `connection_is_persistent` by the set of connection tokens.
use jrpxy.Prelude.{
  Bool, true, false, not, ◌&&◌, ◌||◌, List, [], ◌∷◌, Bytes, codes, ◌≡◌, refl, ap, sym, ◌∙◌, arith,
  any, if◌then◌else◌, Result, ok, err, ◌>>=◌, bind_ext, bind_assoc, eq_ignore_ascii_case,
}
use jrpxy.HttpMessage.Version.{HttpVersion, http10, http11}
use jrpxy.HttpMessage.Header.{Headers}
use jrpxy.HttpMessage.Connection.{
  ConnectionTokenParserError, Item, scan_tokens, connection_tokens, connection_is_persistent,
}

-- All the tokens, or the first error.
abbrev pub collect : List Item → Result (List Bytes) ConnectionTokenParserError
collect [] = ok []
collect (item ∷ items) = do t ← item; ts ← collect items; ok (t ∷ ts)

abbrev pub is_close : Bytes → Bool
is_close token = eq_ignore_ascii_case token (codes "close")

abbrev pub is_keep_alive : Bytes → Bool
is_keep_alive token = eq_ignore_ascii_case token (codes "keep-alive")

close_not_keep_alive : (t : Bytes) → is_close t ≡ true → is_keep_alive t ≡ false
unfolding eq_ignore_ascii_case
close_not_keep_alive [] h = refl
close_not_keep_alive (c ∷ t) h = ground arith

regroup :
    (t : Bytes) (a b c k : Bool)
    → ◌≡◌ {A = Bool × Bool}
        (a || (is_close t || c), b || (if is_close t then k else is_keep_alive t || k))
        (is_close t || a || c, is_keep_alive t || b || k)
regroup t a b c k = ground (arith, close_not_keep_alive t)

scan_tokens-collect :
    (items : List Item) (c k : Bool)
    → scan_tokens items c k
      ≡ (collect items >>= λ ts. ok (any is_close ts || c, any is_keep_alive ts || k))
unfolding scan_tokens
scan_tokens-collect [] c k = refl
scan_tokens-collect (err e ∷ items) c k = refl
scan_tokens-collect (ok t ∷ items) c k =
    scan_tokens-collect items _ _
    ∙ bind_ext (collect items)
        (λ ts. ap ok (regroup t (any is_close ts) (any is_keep_alive ts) c k))
    ∙ sym (bind_assoc (collect items) (λ ts. ok (t ∷ ts)) _)

abbrev verdict : HttpVersion → Bool × Bool → Result Bool ConnectionTokenParserError
verdict version s = ok (elim version [ http11 ↦ not s.0 | http10 ↦ s.1 && not s.0 ])

verdict_by :
    (version : HttpVersion) (a b : Bool)
    → (elim version [ http11 ↦ not (a || false) | http10 ↦ (b || false) && not (a || false) ])
      ≡ (if not a then elim version [ http11 ↦ true | http10 ↦ b ] else false)
verdict_by version a b = ground arith

pub connection_is_persistent_lem :
    (h : Headers) (version : HttpVersion)
    → connection_is_persistent h version ≡ (
        collect (connection_tokens h) >>= λ ts. ok (
          if not (any is_close ts)
          then elim version [ http11 ↦ true | http10 ↦ any is_keep_alive ts ]
          else false))
unfolding connection_is_persistent
connection_is_persistent_lem h version =
    ap (λ r. r >>= verdict version) (scan_tokens-collect (connection_tokens h) false false)
    ∙ bind_assoc (collect (connection_tokens h)) _ (verdict version)
    ∙ bind_ext (collect (connection_tokens h))
        (λ ts. ap ok (verdict_by version (any is_close ts) (any is_keep_alive ts)))
