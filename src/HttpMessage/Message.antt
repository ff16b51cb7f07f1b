-- ===== src/HttpMessage/Message.antt =====
-- http-message/src/message.rs: the requests and responses, apart from their parsing and building. A
-- method on `&mut self` returns its result and the new state.
use jrpxy.Prelude.{ℕ, Bytes, Option, some, none, Result, ok, err, ltb, leb, if◌then◌else◌, ◌&&◌}
use jrpxy.Util.Parse.{OriginFormError, validate_origin_form}
use jrpxy.HttpMessage.Version.{HttpVersion}
use jrpxy.HttpMessage.Header.{Headers}

pub record Request : Type 0 where
  pub method : Bytes
  pub path : Bytes
  pub version : HttpVersion
  pub headers : Headers

unfoldable pub set_origin_form_path : Bytes → Request → Result Unit OriginFormError × Request
set_origin_form_path path r = elim (validate_origin_form path) [
  | err e ↦ (err e, r)
  | ok _ ↦ (ok tt, record r { path = path })
]

pub record Response : Type 0 where
  pub version : HttpVersion
  pub code : ℕ
  pub reason : Bytes
  pub headers : Headers

unfoldable pub is_informational : Response → Option ℕ
is_informational r = if leb 100 r.code && ltb r.code 200 then some r.code else none
