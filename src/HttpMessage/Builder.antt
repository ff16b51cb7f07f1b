-- ===== src/HttpMessage/Builder.antt =====
-- http-message/src/message.rs: the builders of requests and responses. Their setters are the updates of the fields, and
-- `with_header` appends to them. An error carries the offending bytes.
pub mod Valid
use jrpxy.Prelude.{
  ℕ, Bytes, Bool, if◌then◌else◌, List, [], ◌∷◌, Option, none, some, Result, ok, err, ◌>>=◌, ◌>>◌,
  map_err, all,
}
use jrpxy.Util.Parse.Tables.{is_valid_tchar}
use jrpxy.Util.Parse.{is_valid_request_target, is_valid_field_value}
use jrpxy.HttpMessage.Version.{HttpVersion}
use jrpxy.HttpMessage.Header.{Field, FieldError, invalid_name, invalid_value, Headers, new, push}
use jrpxy.HttpMessage.Message.{Request, Response}

pub data BuildError : Type 0 where
  missing_method missing_path missing_version missing_code missing_result : BuildError
  invalid_method invalid_path invalid_reason invalid_field_name invalid_field_value :
      Bytes → BuildError

unfoldable pub build_error_for_field : Bytes → Bytes → FieldError → BuildError
build_error_for_field name value invalid_name = invalid_field_name name
build_error_for_field name value invalid_value = invalid_field_value value

pub record RequestBuilder : Type 0 where
  pub method : Option Bytes
  pub path : Option Bytes
  pub version : Option HttpVersion
  pub headers : List Field

-- `let Some(x) = o else { return Err(e) }`
unfoldable pub ok_or : {A E : Type 0} → E → Option A → Result A E
ok_or e none = err e
ok_or e (some a) = ok a

-- `if !c { return Err(e) }`
unfoldable pub require : {E : Type 0} → Bool → E → Result Unit E
require c e = if c then ok tt else err e

-- The loop over the header fields.
unfoldable pub push_all : List Field → Headers → Result Headers BuildError
unfolding build_error_for_field
push_all [] h = ok h
push_all ((name, value) ∷ rest) h = do
  h' ← map_err (build_error_for_field name value) (push h name value)
  push_all rest h'

unfoldable pub build : RequestBuilder → Result Request BuildError
unfolding ok_or require push_all
build b = do
  method ← ok_or missing_method b.method
  path ← ok_or missing_path b.path
  version ← ok_or missing_version b.version
  require (all is_valid_tchar method) (invalid_method method)
  require (is_valid_request_target path) (invalid_path path)
  headers ← push_all b.headers new
  ok (record { method = method; path = path; version = version; headers = headers })

pub record ResponseBuilder : Type 0 where
  pub version : Option HttpVersion
  pub code : Option ℕ
  pub reason : Option Bytes
  pub headers : List Field

unfoldable pub build_response : ResponseBuilder → Result Response BuildError
unfolding ok_or require push_all
build_response b = do
  version ← ok_or missing_version b.version
  code ← ok_or missing_code b.code
  reason ← ok_or missing_result b.reason
  require (is_valid_field_value reason) (invalid_reason reason)
  headers ← push_all b.headers new
  ok (record { version = version; code = code; reason = reason; headers = headers })
