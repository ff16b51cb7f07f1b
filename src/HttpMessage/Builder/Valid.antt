-- ===== src/HttpMessage/Builder/Valid.antt =====
-- http-message/src/message.rs: what can be built.
use jrpxy.Prelude.{
  Bool, true, false, List, [], ◌∷◌, ◌++◌, ◌≡◌, refl, sym, ap, ◌∙◌, Option, none, some, Result, ok,
  err, map_err, all, All, append-nil, append_assoc, bind-eq-ok, ok-injective, subst,
}
use jrpxy.Util.Parse.Tables.{is_valid_tchar}
use jrpxy.Util.Parse.{is_valid_request_target, is_valid_field_name, is_valid_field_value}
use jrpxy.HttpMessage.Header.{Field, Headers, new, push}
use jrpxy.HttpMessage.Header.Fields.{push_iff}
use jrpxy.HttpMessage.Message.{Request, Response}
use jrpxy.HttpMessage.Builder.{
  missing_method, missing_path, missing_version, missing_code, missing_result, invalid_reason,
  invalid_method, invalid_path, build_error_for_field, RequestBuilder, ok_or, require, push_all,
  build, ResponseBuilder, build_response,
}

abbrev pub IsValidField : Field → Type 0
IsValidField f = (is_valid_field_name f.0 ≡ true) × (is_valid_field_value f.1 ≡ true)

-- The request that is built: it has the parts that were set, and each is valid.
pub record Built (b : RequestBuilder) (r : Request) : Type 0 where
  pub method_set : b.method ≡ some r.method
  pub path_set : b.path ≡ some r.path
  pub version_set : b.version ≡ some r.version
  pub same_headers : r.headers.headers ≡ b.headers
  pub valid_method : all is_valid_tchar r.method ≡ true
  pub valid_path : is_valid_request_target r.path ≡ true
  pub valid_fields : All IsValidField r.headers.headers

map_err-ok : {A D E : Type 0} (f : D → E) (m : Result A D) (a : A) → map_err f m ≡ ok a → m ≡ ok a
map_err-ok f (ok x) a h = ap ok (ok-injective h)
map_err-ok f (err e) a h = cc

ok_or-ok : {A E : Type 0} (e : E) (o : Option A) (a : A) → ok_or e o ≡ ok a → o ≡ some a
unfolding ok_or
ok_or-ok e none a h = cc
ok_or-ok e (some x) a h = ap some (ok-injective h)

require-ok : {E : Type 0} (c : Bool) (e : E) (u : Unit) → require c e ≡ ok u → c ≡ true
unfolding require
require-ok true e u h = refl
require-ok false e u h = cc

push_all-ok :
    (fs : List Field) (h h' : Headers)
    → push_all fs h ≡ ok h'
    → (h'.headers ≡ h.headers ++ fs) × All IsValidField fs
unfolding push_all
push_all-ok [] h h' e =
    (ap (λ (x : Headers). x.headers) (sym (ok-injective e)) ∙ sym (append-nil h.headers), tt)
push_all-ok ((name, value) ∷ rest) h h' e =
    let (h1, e1, e2) = bind-eq-ok _ _ e in
    let (good_name, good_value, appended) =
      (push_iff h h1 name value).0
        (map_err-ok (build_error_for_field name value) (push h name value) h1 e1) in
    let (all_of, valid) = push_all-ok rest h1 h' e2 in
    (
      all_of
          ∙ ap (λ (l : List Field). l ++ rest) appended
          ∙ append_assoc h.headers ((name, value) ∷ []) rest,
      ((good_name, good_value), valid),
    )

-- A request that is built has the method, path, version and header fields that were set, the fields in
-- order; the method is made of `tchar` bytes, the path is a valid request-target, and every field
-- name and value is valid.
pub build-Built : (b : RequestBuilder) (r : Request) → build b ≡ ok r → Built b r
unfolding build
build-Built b r h =
    let (method, e1, h1) = bind-eq-ok _ _ h in
    let (path, e2, h2) = bind-eq-ok _ _ h1 in
    let (version, e3, h3) = bind-eq-ok _ _ h2 in
    let (u, e4, h4) =
      bind-eq-ok (require (all is_valid_tchar method) (invalid_method method)) _ h3 in
    let (v, e5, h5) =
      bind-eq-ok (require (is_valid_request_target path) (invalid_path path)) _ h4 in
    let (headers, e6, h6) = bind-eq-ok (push_all b.headers new) _ h5 in
    let (same, valid) = push_all-ok b.headers new headers e6 in
    subst (λ x. Built b x) (ok-injective h6)
      (record {
        method_set = ok_or-ok missing_method b.method method e1;
        path_set = ok_or-ok missing_path b.path path e2;
        version_set = ok_or-ok missing_version b.version version e3;
        same_headers = same;
        valid_method = require-ok (all is_valid_tchar method) (invalid_method method) u e4;
        valid_path = require-ok (is_valid_request_target path) (invalid_path path) v e5;
        valid_fields = subst (λ (l : List Field). All IsValidField l) (sym same) valid;
      })

-- The response that is built: it has the parts that were set, and each is valid.
pub record BuiltResponse (b : ResponseBuilder) (r : Response) : Type 0 where
  pub version_set : b.version ≡ some r.version
  pub code_set : b.code ≡ some r.code
  pub reason_set : b.reason ≡ some r.reason
  pub same_headers : r.headers.headers ≡ b.headers
  pub valid_reason : is_valid_field_value r.reason ≡ true
  pub valid_fields : All IsValidField r.headers.headers

-- A response that is built has the version, code, reason and header fields that were set, the fields in
-- order; the reason is made of the bytes of a field value, and every field name and value is valid.
pub build-BuiltResponse :
    (b : ResponseBuilder) (r : Response) → build_response b ≡ ok r → BuiltResponse b r
unfolding build_response
build-BuiltResponse b r h =
    let (version, e1, h1) = bind-eq-ok _ _ h in
    let (code, e2, h2) = bind-eq-ok _ _ h1 in
    let (reason, e3, h3) = bind-eq-ok _ _ h2 in
    let (u, e4, h4) =
      bind-eq-ok (require (is_valid_field_value reason) (invalid_reason reason)) _ h3 in
    let (headers, e5, h5) = bind-eq-ok (push_all b.headers new) _ h4 in
    let (same, valid) = push_all-ok b.headers new headers e5 in
    subst (λ x. BuiltResponse b x) (ok-injective h5)
      (record {
        version_set = ok_or-ok missing_version b.version version e1;
        code_set = ok_or-ok missing_code b.code code e2;
        reason_set = ok_or-ok missing_result b.reason reason e3;
        same_headers = same;
        valid_reason = require-ok (is_valid_field_value reason) (invalid_reason reason) u e4;
        valid_fields = subst (λ (l : List Field). All IsValidField l) (sym same) valid;
      })
