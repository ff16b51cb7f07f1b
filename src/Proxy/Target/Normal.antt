-- ===== src/Proxy/Target/Normal.antt =====
-- proxy/src/request_target.rs: `normalize`, by what it makes of a request.
use jrpxy.Prelude.{
  ◌==◌, Begins, Result-cases, Bytes, Bool, not, List, [], ◌∷◌, ◌++◌, ◌≡◌, ◌≢◌, refl, sym, ap, ◌∙◌,
  Result, ok, err, codes, keep_if, keep_if-append, keep_if-ext, keep_if_twice, keep_if_none,
  append-nil, eq_ignore_ascii_case, eq_ignore_ascii_case_comm, bytes_eq, bytes_eq_iff, Bool-cases,
  inl, inr,
}
use jrpxy.Util.Parse.{OriginFormError, validate_origin_form}
use jrpxy.Util.Parse.OriginForm.{IsOriginForm, validate_origin_form_iff}
use jrpxy.HttpMessage.Header.{Field, Headers, get_header, remove, push_raw}
use jrpxy.HttpMessage.Header.Fields.{remove-keep_if}
use jrpxy.HttpMessage.Message.{Request, set_origin_form_path}
use jrpxy.Proxy.Error.{ProxyFrontendError, malformed_request_target, asterisk_form_not_allowed}
use jrpxy.Proxy.Target.{
  RequestTargetForm, origin, asterisk, absolute, maybe_authority, empty, malformed, is_host,
  classify, with_host, normalize_form, normalize,
}
use jrpxy.Proxy.Target.Plain.{classify_origin, classify_asterisk}
use jrpxy.Proxy.Target.Absolute.{IsAbsolute, classify-IsAbsolute}

-- The fields other than Host.
abbrev pub others : Headers → List (Bytes × Bytes)
others h = keep_if (λ f. not (is_host f)) h.headers

-- What a request with the target in absolute form becomes.
pub record Rewritten (req req' : Request) : Type 0 where
  pub authority : Bytes
  pub target : IsAbsolute req.path authority req'.path
  pub in_origin_form : IsOriginForm req'.path
  pub one_host : get_header req'.headers (codes "host") ≡ (codes "host", authority) ∷ []
  pub same_others : others req'.headers ≡ others req.headers
  pub same_method : req'.method ≡ req.method
  pub same_version : req'.version ≡ req.version

pub data Normal (req req' : Request) : Type 0 where
  same_origin : Begins (λ b. b == b'/') req.path → req' ≡ req → Normal req req'
  same_asterisk : req.path ≡ codes "*" → req.method ≡ codes "OPTIONS" → req' ≡ req → Normal req req'
  rewritten : Rewritten req req' → Normal req req'

abbrev host_field : Bytes → List Field
host_field a = (codes "host", a) ∷ []

host_alone :
    (xs : List Field) (a : Bytes)
    → keep_if
        (λ f. eq_ignore_ascii_case (codes "host") f.0)
        (keep_if (λ f. not (is_host f)) xs ++ host_field a)
      ≡ host_field a
unfolding eq_ignore_ascii_case
host_alone xs a =
    let find : Field → Bool = λ f. eq_ignore_ascii_case (codes "host") f.0 in
    let rest = keep_if (λ f. not (is_host f)) xs in
    keep_if-append find rest (host_field a)
    ∙ ap (λ (l : List Field). l ++ host_field a)
        (keep_if-ext find is_host rest (λ f. eq_ignore_ascii_case_comm (codes "host") f.0)
          ∙ keep_if_none is_host xs)

others_alone :
    (xs : List Field) (a : Bytes)
    → keep_if (λ f. not (is_host f)) (keep_if (λ f. not (is_host f)) xs ++ host_field a)
      ≡ keep_if (λ f. not (is_host f)) xs
unfolding eq_ignore_ascii_case
others_alone xs a =
    let rest = keep_if (λ f. not (is_host f)) xs in
    keep_if-append (λ f. not (is_host f)) rest (host_field a)
    ∙ ap (λ (l : List Field). l ++ []) (keep_if_twice (λ f. not (is_host f)) xs)
    ∙ append-nil rest

host_fields :
    (h : Headers) (a : Bytes)
    → (get_header (push_raw (remove is_host h).0 (codes "host") a) (codes "host") ≡ host_field a)
      × (others (push_raw (remove is_host h).0 (codes "host") a) ≡ others h)
unfolding get_header push_raw
host_fields h a =
    rw ((remove-keep_if is_host h).0) (host_alone h.headers a, others_alone h.headers a)

refused : {e : ProxyFrontendError} → ◌≢◌ {A = Result Unit ProxyFrontendError} (err e) (ok tt)
refused = λ e. cc

set_ok :
    (req : Request) (a q : Bytes)
    → validate_origin_form q ≡ ok tt
    → normalize_form (absolute a q) req ≡ (
      ok tt,
      record req { path = q; headers = push_raw (remove is_host req.headers).0 (codes "host") a },
    )
unfolding normalize_form with_host set_origin_form_path
set_ok req a q h =
    let set : set_origin_form_path q req ≡ (ok tt, record req { path = q }) =
      rw (set_origin_form_path, h) refl in
    ap (with_host a) set

set_err :
    (req : Request) (a q : Bytes) {e : OriginFormError}
    → validate_origin_form q ≡ err e
    → normalize_form (absolute a q) req ≡ (err malformed_request_target, req)
unfolding normalize_form with_host set_origin_form_path
set_err req a q {e} h =
    let set : set_origin_form_path q req ≡ (err e, req) = rw (set_origin_form_path, h) refl in
    ap (with_host a) set

set_path-Rewritten :
    (req : Request) (a q : Bytes)
    → IsAbsolute req.path a q
    → (normalize_form (absolute a q) req).0 ≡ ok tt
    → Rewritten req (normalize_form (absolute a q) req).1
set_path-Rewritten req a q target h = elim (Result-cases (validate_origin_form q)) [
  | inl (_, e) ↦
      let (one, same) = host_fields req.headers a in
      rw (set_ok req a q e) (record {
        authority = a;
        target = target;
        in_origin_form = (validate_origin_form_iff q).0 e;
        one_host = one;
        same_others = same;
        same_method = refl;
        same_version = refl;
      })
  | inr (_, e) ↦ absurd (refused (ap (λ p. p.0) (sym (set_err req a q e)) ∙ h))
]

form-Normal :
    (req : Request) (f : RequestTargetForm)
    → classify req.path ≡ f
    → (normalize_form f req).0 ≡ ok tt
    → Normal req (normalize_form f req).1
unfolding normalize_form
form-Normal req origin e h = same_origin (classify_origin req.path e) refl
form-Normal req asterisk e h = elim (Bool-cases (bytes_eq req.method (codes "OPTIONS"))) [
  | inl g ↦ rw g (
      same_asterisk (classify_asterisk req.path e) ((bytes_eq_iff req.method (codes "OPTIONS")).0 g)
        refl)
  | inr g ↦ absurd (refused {e = asterisk_form_not_allowed} (rw (← h, g)))
]
form-Normal req (absolute a q) e h =
    rewritten (set_path-Rewritten req a q ((classify-IsAbsolute req.path a q).0 e) h)
form-Normal req maybe_authority e h = absurd (refused h)
form-Normal req empty e h = absurd (refused h)
form-Normal req malformed e h = absurd (refused h)

-- A request that `normalize` accepts is kept as it is if its target begins with `/`, or is `*` and the
-- method OPTIONS. Otherwise its target is in absolute form, and is replaced by the path and
-- query, which is in origin form; the authority becomes the only Host field, and the method, the
-- version and the other fields stay, in order.
pub normalize-Normal : (req : Request) → (normalize req).0 ≡ ok tt → Normal req (normalize req).1
unfolding normalize
normalize-Normal req h = form-Normal req (classify req.path) refl h

form_atomic :
    (req : Request) (f : RequestTargetForm) {e : ProxyFrontendError}
    → (normalize_form f req).0 ≡ err e
    → (normalize_form f req).1 ≡ req
unfolding normalize_form
form_atomic req origin h = refl
form_atomic req asterisk h = elim (Bool-cases (bytes_eq req.method (codes "OPTIONS"))) [
  | inl g ↦ rw g
  | inr g ↦ rw g
]
form_atomic req (absolute a q) h = elim (Result-cases (validate_origin_form q)) [
  | inl (_, e) ↦ absurd (refused (sym h ∙ ap (λ p. p.0) (set_ok req a q e)))
  | inr (_, e) ↦ ap (λ p. p.1) (set_err req a q e)
]
form_atomic req maybe_authority h = refl
form_atomic req empty h = refl
form_atomic req malformed h = refl

-- A request that `normalize` refuses is left as it was.
pub normalize_atomic :
    (req : Request) (e : ProxyFrontendError) → (normalize req).0 ≡ err e → (normalize req).1 ≡ req
unfolding normalize
normalize_atomic req e h = form_atomic req (classify req.path) h
