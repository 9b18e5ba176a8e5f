-- ===== src/Examples/Cookies.antt =====
-- A sticky cookie that is set and sent back, at concrete values:
-- rpxy-lib/src/message_handler/header_ops/sticky_cookie.rs.
use rust_rpxy.Common.{
  ℕ, ◌+◌, ◌≡◌, refl, true, Option, none, some, [], ◌∷◌, ◌++◌, if◌then◌else◌, ltb, arith, unwrap_or,
  Bytes, bytes,
}
use rust_rpxy.HeaderText.{split, trim, trim_start, trim_end}
use rust_rpxy.HeaderMap.{HeaderMap, HeaderValues, cookie}
use rust_rpxy.LoadBalance.Sticky.{StickyCookie, StickyCookieConfig, build_sticky_cookie}
use rust_rpxy.StickySeal.{seal_server_id, be_bytes, base64_url_no_pad_encoded_len}
use rust_rpxy.StickyHeaders.{
  name_prefix, sealed_text, takeout_sticky_cookie_lb_context, set_sticky_cookie_lb_context,
  cookies_of,
}
use rust_rpxy.StickyHeaders.Passing.{Passed}
use rust_rpxy.StickyHeaders.Returning.{IsCookieName, pair_of, takeout-sealed_text}
use rust_rpxy.Examples.Sealing.{plain, plain_laws, plain_coding, nonce}

abbrev pub values : HeaderValues
values = record { to_str = λ v. some v; from_str = λ v. some v; from_bytes = λ v. some v }

abbrev pub config : StickyCookieConfig
config = record {
  name = bytes "rpxy_srv_id";
  domain = bytes "example.com";
  path = bytes "/";
  duration = 300;
}

named : IsCookieName config.name
named = record { lower = refl; no_equals = refl; no_semicolon = refl; no_space = refl }

abbrev pub date : ℕ → Option Bytes
date t = some (bytes "Tue, 14-Nov-2023 22:18:20 GMT")

abbrev pub context : StickyCookie
context = build_sticky_cookie config 1700000000 (bytes "id0")

abbrev text : Bytes
text = unwrap_or (sealed_text plain date 1700000000 config nonce true context) []

is_text : sealed_text plain date 1700000000 config nonce true context ≡ some text
unfolding sealed_text build_sticky_cookie seal_server_id
is_text = refl

abbrev headers : HeaderMap
headers = λ name. (bytes "a=1; " ++ pair_of text ++ bytes "; b=2") ∷ []

cookies : cookies_of values (headers cookie) ≡ (bytes "a=1" ∷ []) ++ pair_of text ∷ bytes "b=2" ∷ []
unfolding cookies_of split trim sealed_text trim_end build_sticky_cookie trim_start seal_server_id
    be_bytes base64_url_no_pad_encoded_len
cookies = refl

takeout-sealed_text_example :
    Passed values headers
      (bytes "accept")
      (bytes "a=1; b=2")
      (if ltb 1700000200 (1700000000 + 300)
        then some
            (record { value = record { name = config.name; value = bytes "id0" }; info = none })
        else none)
      (takeout_sticky_cookie_lb_context values plain 1700000200 config headers)
unfolding name_prefix
takeout-sealed_text_example =
    takeout-sealed_text plain plain_laws plain_coding date config named values nonce (bytes "id0")
      text 1700000000 1700000000 1700000200 true headers (bytes "a=1" ∷ []) (bytes "b=2" ∷ [])
      (bytes "accept") refl (omega arith) refl is_text cookies refl refl

abbrev response : HeaderMap
response = λ name. bytes "rpxy_srv_id=old" ∷ bytes "c=3" ∷ []

abbrev after : HeaderMap
after =
    unwrap_or
      (set_sticky_cookie_lb_context plain date 1700000000 config values response nonce true context)
      response
