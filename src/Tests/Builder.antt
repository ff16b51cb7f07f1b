-- ===== src/Tests/Builder.antt =====
-- http-message/src/message.rs: the builder of requests.
use jrpxy.Prelude.{◌≡◌, refl, [], ◌∷◌, some, ok, codes}
use jrpxy.Util.Parse.Tables.{is_valid_tchar, is_valid_field_vchar}
use jrpxy.Util.Parse.{is_valid_field_name, is_valid_field_value, is_valid_request_target}
use jrpxy.HttpMessage.Version.{http11}
use jrpxy.HttpMessage.Header.{push}
use jrpxy.HttpMessage.Message.{Request}
use jrpxy.HttpMessage.Builder.{RequestBuilder, ok_or, require, push_all, build}
use jrpxy.HttpMessage.Builder.Valid.{Built, build-Built}

abbrev get_root : RequestBuilder
get_root = record {
  method = some (codes "GET");
  path = some (codes "/");
  version = some http11;
  headers = (codes "Host", codes "a b") ∷ [];
}

abbrev root : Request
root = record {
  method = codes "GET";
  path = codes "/";
  version = http11;
  headers = record { headers = (codes "Host", codes "a b") ∷ [] };
}

builds_root : build get_root ≡ ok root
unfolding build ok_or require push_all push is_valid_tchar is_valid_field_vchar is_valid_field_name
    is_valid_field_value is_valid_request_target
builds_root = refl

build-Built_example : Built get_root root
build-Built_example = build-Built get_root root builds_root

-- A method of no bytes is accepted.
builds_without_method :
    build (record get_root { method = some [] }) ≡ ok (record root { method = [] })
unfolding build ok_or require push_all push is_valid_tchar is_valid_field_vchar is_valid_field_name
    is_valid_field_value is_valid_request_target
builds_without_method = refl
