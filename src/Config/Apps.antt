-- ===== src/Config/Apps.antt =====
-- The applications of rpxy-bin/src/config/toml.rs and what they are built into, the types of
-- rpxy-lib/src/globals.rs. `Uri::parse` of the http crate is an argument.
use rust_rpxy.Common.{
  Bool, true, false, not, ◌&&◌, Option, none, some, List, [], ◌∷◌, ◌++◌, if◌then◌else◌, is_some,
  unwrap_or, all, traverse, ensure, ◌>>=◌, ◌>>◌, Bytes, bytes,
}
use rust_rpxy.Config.ServerNames.{validate_server_name}
use rust_rpxy.Config.HealthChecks.{
  HealthCheckConfig, HealthCheckOption, build_health_check_config, validate_lb_health_check,
}

pub record TlsOption : Type 0 where
  pub tls_cert_path : Option Bytes
  pub tls_cert_key_path : Option Bytes
  pub https_redirection : Option Bool
  pub client_ca_cert_path : Option Bytes
  pub acme : Option Bool

pub record UpstreamParams : Type 0 where
  pub location : Bytes
  pub tls : Option Bool

pub record ReverseProxyOption : Type 0 where
  pub path : Option Bytes
  pub replace_path : Option Bytes
  pub upstream : List UpstreamParams
  pub upstream_options : Option (List Bytes)
  pub load_balance : Option Bytes
  pub health_check : Option HealthCheckOption

pub record Application : Type 0 where
  pub server_name : Option Bytes
  pub reverse_proxy : Option (List ReverseProxyOption)
  pub tls : Option TlsOption

pub record TlsConfig : Type 0 where
  pub mutual_tls : Bool
  pub https_redirection : Bool
  pub acme : Bool

pub record ReverseProxyConfig (U : Type 0) : Type 0 where
  pub path : Option Bytes
  pub replace_path : Option Bytes
  pub upstream : List U
  pub upstream_options : Option (List Bytes)
  pub load_balance : Option Bytes
  pub health_check : Option HealthCheckConfig

pub record AppConfig (U : Type 0) : Type 0 where
  pub app_name : Bytes
  pub server_name : Bytes
  pub reverse_proxy : List (ReverseProxyConfig U)
  pub tls : Option TlsConfig

-- The certificate paths are given exactly without ACME.
pub check_cert_paths : TlsOption → Bool
check_cert_paths tls =
    if unwrap_or tls.acme false
    then not (is_some tls.tls_cert_key_path) && not (is_some tls.tls_cert_path)
    else is_some tls.tls_cert_key_path && is_some tls.tls_cert_path

unfoldable pub build_tls : Option TlsOption → Option (Option TlsConfig)
unfolding check_cert_paths
build_tls none = some none
build_tls (some tls) = do
  ensure (check_cert_paths tls)
  some (
      some (record {
        mutual_tls = is_some tls.client_ca_cert_path;
        https_redirection = unwrap_or tls.https_redirection true;
        acme = unwrap_or tls.acme false;
      }))

scheme_of : Option Bool → Bytes
scheme_of (some true) = bytes "https"
scheme_of _ = bytes "http"

-- `TryInto<UpstreamUri> for &UpstreamParams`, up to the parser.
unfoldable pub upstream_location : UpstreamParams → Bytes
unfolding scheme_of
upstream_location params = scheme_of params.tls ++ (bytes "://" ++ params.location)

unfoldable pub build_health : Option HealthCheckOption → Option (Option HealthCheckConfig)
build_health none = some none
build_health (some option) = build_health_check_config option

abbrev pub any_upstream : List UpstreamParams → Bool
any_upstream [] = false
any_upstream (u ∷ us) = true

abbrev pub lb_checked : {U : Type 0} → ReverseProxyConfig U → Bool
lb_checked rpc = validate_lb_health_check rpc.load_balance rpc.health_check

module _ {U : Type 0} (parse_uri : Bytes → Option U) where
  unfoldable pub build_reverse_proxy : ReverseProxyOption → Option (ReverseProxyConfig U)
  unfolding build_health upstream_location
  build_reverse_proxy rpo = do
    ensure (any_upstream rpo.upstream)
    upstream ← traverse (λ v. parse_uri (upstream_location v)) rpo.upstream
    health_check ← build_health rpo.health_check
    some (record {
      path = rpo.path;
      replace_path = rpo.replace_path;
      upstream = upstream;
      upstream_options = rpo.upstream_options;
      load_balance = rpo.load_balance;
      health_check = health_check;
    })

  -- `TryInto<Vec<ReverseProxyConfig>> for &Application`.
  unfoldable pub reverse_proxies : Application → Option (List (ReverseProxyConfig U))
  reverse_proxies app = do
    name ← app.server_name
    settings ← app.reverse_proxy
    traverse build_reverse_proxy settings

  unfoldable pub build_app_config : Application → Bytes → Option (AppConfig U)
  unfolding build_tls reverse_proxies
  build_app_config app app_name = do
    name ← app.server_name
    ensure (validate_server_name name)
    proxies ← reverse_proxies app
    ensure (all lb_checked proxies)
    tls ← build_tls app.tls
    some (record { app_name = app_name; server_name = name; reverse_proxy = proxies; tls = tls })
