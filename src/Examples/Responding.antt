-- ===== src/Examples/Responding.antt =====
-- Responses of an upstream and what becomes of them: rpxy-lib/src/message_handler/handler_main.rs.
use rust_rpxy.Common.{
  ◌≡◌, refl, Bool, true, false, Option, none, some, [], ◌∷◌, if◌then◌else◌, Bytes, bytes, bytes_eq,
  ◌++◌, ◌>>=◌, unwrap_or,
}
use rust_rpxy.HeaderMap.{HeaderMap, set_lines}
use rust_rpxy.HeaderText.{eq_ignore_ascii_case, split, trim, trim_start, trim_end}
use rust_rpxy.HopByHop.{extract_upgrade}
use rust_rpxy.Dispatch.{failed_to_upgrade}
use rust_rpxy.LoadBalance.Sticky.{build_sticky_cookie}
use rust_rpxy.StickySeal.{seal_server_id}
use rust_rpxy.StickyHeaders.{set_sticky_cookie_lb_context}
use rust_rpxy.ForwardedEntry.{decimal}
use rust_rpxy.RequestOps.{Uri, https}
use rust_rpxy.Redirection.{secure_redirection_response}
use rust_rpxy.Generation.{AltSvc, Uris}
use rust_rpxy.Examples.Sealing.{plain, nonce}
use rust_rpxy.Examples.Cookies.{values, config, date, context}
use rust_rpxy.Responding.{
  Response, HandlerContext, Sealing, Reply, upgraded, failed, handle_response,
}
use rust_rpxy.Responding.Replies.{Agrees, handle_response-Agrees}

abbrev sealing : Sealing
sealing = record { cipher = some plain; date = date; now = 1700000000; nonce = nonce }

abbrev alt_svc : AltSvc
alt_svc = record { http3 = true; public_https_port = some 443; h3_alt_svc_max_age = 3600 }

abbrev handler_context : HandlerContext
handler_context = record {
  context_lb = some context;
  sticky_cookie_secure = true;
  sticky_cookie_config = some config;
}

abbrev switching_headers : HeaderMap
switching_headers name =
    if bytes_eq name (bytes "connection")
    then bytes "Upgrade" ∷ []
    else (if bytes_eq name (bytes "upgrade") then bytes "WebSocket" ∷ [] else [])

abbrev switching : Response
switching = record { status = 101; headers = switching_headers }

abbrev asked : Option Bytes
asked = some (bytes "websocket")

is_upgraded : Reply → Bool
is_upgraded (upgraded res) = true
is_upgraded _ = false

switches :
    is_upgraded (handle_response values sealing alt_svc handler_context asked none true switching)
    ≡ true
unfolding is_upgraded handle_response set_sticky_cookie_lb_context build_sticky_cookie
    seal_server_id extract_upgrade set_lines split eq_ignore_ascii_case trim trim_end trim_start
switches = refl

refuses :
    handle_response values sealing alt_svc handler_context (some (bytes "h2c")) none true switching
    ≡ failed failed_to_upgrade
unfolding handle_response set_sticky_cookie_lb_context build_sticky_cookie seal_server_id
    extract_upgrade set_lines split eq_ignore_ascii_case trim trim_end trim_start
refuses = refl

handle_response-Agrees_example :
    Agrees values asked switching
      (bytes "upgrade")
      (handle_response values sealing alt_svc handler_context asked none true switching)
handle_response-Agrees_example =
    handle_response-Agrees values sealing alt_svc handler_context asked none true switching
      (bytes "upgrade") refl

abbrev texts : Uris
texts = record {
  to_string = λ u. bytes "https://" ++ unwrap_or u.host [] ++ unwrap_or u.path_and_query [];
  scheme = λ s. some https;
  authority = λ s. some s;
  build = λ s a pq.
      some (record {
        scheme = some s;
        host = some a;
        port = none;
        path = pq;
        path_and_query = some pq;
      });
}

abbrev asked_uri : Uri
asked_uri = record {
  scheme = none;
  host = none;
  port = none;
  path = bytes "/a";
  path_and_query = some (bytes "/a?b");
}

redirects :
    secure_redirection_response values texts
        (record { inner = bytes "example.com" })
        (some 8443)
        asked_uri
      >>= (λ res. some (res.headers (bytes "location")))
    ≡ some (bytes "https://example.com:8443/a?b" ∷ [])
unfolding secure_redirection_response decimal set_lines
redirects = refl
