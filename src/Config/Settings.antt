-- ===== src/Config/Settings.antt =====
-- `validate_and_build_settings` of rpxy-bin/src/config/toml.rs.
use rust_rpxy.Common.{
  Bool, true, false, not, ◌&&◌, ◌||◌, Option, none, some, List, [], ◌∷◌, is_some, all, traverse,
  ensure, ◌>>=◌, ◌>>◌, Bytes, to_ascii_lowercase,
}
use rust_rpxy.TrustedProxies.{IpNets}
use rust_rpxy.Config.Sockets.{AddressParsers}
use rust_rpxy.Config.Apps.{TlsOption, Application, AppConfig, build_app_config}
use rust_rpxy.Config.Proxy.{ConfigToml, ProxyConfig, build_proxy_config}

-- A `HashMap` of applications, in some order.
abbrev pub Apps : Type 0
Apps = List (Bytes × Application)

pub record AppConfigList (U : Type 0) : Type 0 where
  pub inner : List (AppConfig U)
  pub default_app : Option Bytes

abbrev pub has_apps : Apps → Bool
has_apps [] = false
has_apps (a ∷ apps) = true

abbrev no_redirection : Option TlsOption → Bool
no_redirection none = true
no_redirection (some tls) = not (is_some tls.https_redirection)

abbrev pub all_apps_have_tls : Apps → Bool
all_apps_have_tls apps = all (λ (name, app). is_some app.tls) apps

abbrev pub all_apps_no_https_redirection : Apps → Bool
all_apps_no_https_redirection apps = all (λ (name, app). no_redirection app.tls) apps

abbrev pub default_app_of : Option Bytes → Option Bytes
default_app_of none = none
default_app_of (some v) = some (to_ascii_lowercase v)

unfoldable pub build_app :
    {U : Type 0} → (Bytes → Option U) → Bytes × Application → Option (AppConfig U)
build_app parse_uri (app_name, app) = build_app_config parse_uri app (to_ascii_lowercase app_name)

module _ {N U : Type 0} (nets : IpNets N) (parsers : AddressParsers)
    (parse_uri : Bytes → Option U) where
  unfoldable pub validate_and_build_settings :
      ConfigToml → Option Apps → Option Bytes → Option (ProxyConfig N × AppConfigList U)
  unfolding build_app
  validate_and_build_settings toml apps_option default_app = do
    proxy_config ← build_proxy_config nets parsers toml
    apps ← apps_option
    ensure (has_apps apps)
    ensure (is_some proxy_config.http_port || all_apps_have_tls apps)
    ensure (not (is_some proxy_config.public_https_port) || is_some proxy_config.https_port)
    ensure (
        (is_some proxy_config.https_port && is_some proxy_config.http_port)
        || all_apps_no_https_redirection apps)
    inner ← traverse (build_app parse_uri) apps
    some (proxy_config, record { inner = inner; default_app = default_app_of default_app })
