-- ===== src/Responding.antt =====
-- The last part of `handle_request_inner` in rpxy-lib/src/message_handler/handler_main.rs: what
-- becomes of the response of the upstream. The copying between upgraded connections is a task of
-- its own and left out.
pub mod Replies
use rust_rpxy.Common.{
  ℕ, ◌≡◌, Bool, true, false, Option, none, some, if◌then◌else◌, ◌==◌, ◌>>=◌, Bytes,
}
use rust_rpxy.HeaderText.{eq_ignore_ascii_case}
use rust_rpxy.HeaderMap.{HeaderMap, HeaderValues}
use rust_rpxy.HopByHop.{extract_upgrade}
use rust_rpxy.Dispatch.{
  HttpError, failed_to_add_set_cookie_in_response, failed_to_generate_downstream_response,
  failed_to_upgrade,
}
use rust_rpxy.LoadBalance.Sticky.{StickyCookie, StickyCookieConfig}
use rust_rpxy.StickySeal.{SealCrates}
use rust_rpxy.StickyHeaders.{set_sticky_cookie_lb_context}
use rust_rpxy.Generation.{AltSvc, generate_response_forwarded}

-- The status and the headers of a response.
pub record Response : Type 0 where
  pub status : ℕ
  pub headers : HeaderMap

pub record HandlerContext : Type 0 where
  pub context_lb : Option StickyCookie
  pub sticky_cookie_secure : Bool
  pub sticky_cookie_config : Option StickyCookieConfig

-- The cipher of the globals with the format of dates, the clock and the nonce of a new seal.
pub record Sealing : Type 0 where
  pub cipher : Option SealCrates
  pub date : ℕ → Option Bytes
  pub now : ℕ
  pub nonce : Bytes

-- A response for the client, which after an upgrade is followed by the copying, or an error.
pub data Reply : Type 0 where
  relayed upgraded : Response → Reply
  failed : HttpError → Reply

abbrev pub switching_protocols : ℕ
switching_protocols = 101

-- The value of `should_upgrade`.
unfoldable pub should_upgrade : Option Bytes → Option Bytes → Bool
should_upgrade (some u_req) (some u_res) = eq_ignore_ascii_case u_req u_res
should_upgrade _ _ = false

module _ (values : HeaderValues) (sealing : Sealing) (alt_svc : AltSvc) where
  unfoldable pub add_set_cookie :
      HandlerContext → Option StickyCookie → HeaderMap → Option HeaderMap
  add_set_cookie context none headers = some headers
  add_set_cookie context (some context_from_lb) headers = do
    sticky_config ← context.sticky_cookie_config
    cipher ← sealing.cipher
    set_sticky_cookie_lb_context cipher sealing.date sealing.now sticky_config values headers
        sealing.nonce context.sticky_cookie_secure context_from_lb

  unfoldable pub relay : Option HeaderMap → ℕ → Reply
  relay none status = failed failed_to_generate_downstream_response
  relay (some headers) status = relayed (record { status = status; headers = headers })

  -- With the headers that the cookie is set in.
  unfoldable pub reply : Option Bytes → Option Bool → Bool → ℕ → Option HeaderMap → Reply
  unfolding relay should_upgrade
  reply upgrade_in_request mutual_tls tls status none = failed failed_to_add_set_cookie_in_response
  reply upgrade_in_request mutual_tls tls status (some headers) =
      if status == switching_protocols
      then (if should_upgrade upgrade_in_request (extract_upgrade values headers)
          then upgraded (record { status = status; headers = headers })
          else failed failed_to_upgrade)
      else relay (generate_response_forwarded values alt_svc headers mutual_tls tls) status

  unfoldable pub handle_response :
      HandlerContext → Option Bytes → Option Bool → Bool → Response → Reply
  unfolding reply add_set_cookie
  handle_response context upgrade_in_request mutual_tls tls res =
      reply upgrade_in_request mutual_tls tls res.status
        (add_set_cookie context context.context_lb res.headers)
