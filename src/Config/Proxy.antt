-- ===== src/Config/Proxy.antt =====
-- `TryInto<ProxyConfig> for &ConfigToml` of rpxy-bin/src/config/toml.rs, with `ProxyConfig` and its
-- defaults in rpxy-lib/src/globals.rs and constants.rs. Durations are in seconds, that of the PROXY
-- protocol in milliseconds. The settings of applications are kept apart, in Config/Settings.
use rust_rpxy.Common.{
  ℕ, Bool, true, false, not, ◌||◌, Option, none, some, List, [], if◌then◌else◌, ◌==◌, is_some,
  unwrap_or, traverse, ensure, ◌>>=◌, ◌>>◌, Bytes, bytes,
}
use rust_rpxy.Net.{SocketAddr}
use rust_rpxy.TrustedProxies.{IpNets, resolve_trusted_proxy_entries}
use rust_rpxy.Config.BodySize.{BodySizeValue, parse_body_size}
use rust_rpxy.Config.Sockets.{AddressParsers, OneOrMany, into_vec, non_empty, build_listen_sockets}

pub record Http3Option : Type 0 where
  pub alt_svc_max_age : Option ℕ
  pub request_max_body_size : Option ℕ
  pub max_concurrent_connections : Option ℕ
  pub max_concurrent_bidistream : Option ℕ
  pub max_concurrent_unistream : Option ℕ
  pub max_idle_timeout : Option ℕ

pub record CacheOption : Type 0 where
  pub cache_dir : Option Bytes
  pub max_cache_entry : Option ℕ
  pub max_cache_each_size : Option ℕ
  pub max_cache_each_size_on_memory : Option ℕ

pub record TcpRecvProxyProtocolOption : Type 0 where
  pub trusted_proxies : List Bytes
  pub timeout : Option ℕ

pub record Experimental : Type 0 where
  pub h3 : Option Http3Option
  pub cache : Option CacheOption
  pub ignore_sni_consistency : Option Bool
  pub connection_handling_timeout : Option ℕ
  pub tcp_recv_proxy_protocol : Option TcpRecvProxyProtocolOption

pub record ConfigToml : Type 0 where
  pub listen_port : Option ℕ
  pub listen_port_tls : Option ℕ
  pub listen_address_v4 : Option OneOrMany
  pub listen_address_v6 : Option OneOrMany
  pub listen_ipv6 : Option Bool
  pub public_https_port : Option ℕ
  pub https_redirection_port : Option ℕ
  pub tcp_listen_backlog : Option ℕ
  pub max_concurrent_streams : Option ℕ
  pub max_clients : Option ℕ
  pub max_clients_per_ip : Option ℕ
  pub trusted_forwarded_proxies : Option OneOrMany
  pub redact_query_in_access_log : Option Bool
  pub request_max_body_size : Option BodySizeValue
  pub experimental : Option Experimental

pub record TcpRecvProxyProtocolConfig (N : Type 0) : Type 0 where
  pub trusted_proxies : List N
  pub timeout : ℕ

pub record ProxyConfig (N : Type 0) : Type 0 where
  pub listen_sockets : List SocketAddr
  pub http_port : Option ℕ
  pub https_port : Option ℕ
  pub public_https_port : Option ℕ
  pub tcp_listen_backlog : ℕ
  pub proxy_idle_timeout : ℕ
  pub upstream_idle_timeout : ℕ
  pub keepalive : Bool
  pub max_clients : ℕ
  pub max_clients_per_ip : ℕ
  pub max_concurrent_streams : ℕ
  pub redact_query_in_access_log : Bool
  pub sni_consistency : Bool
  pub trusted_forwarded_proxies : List N
  pub tcp_recv_proxy_protocol : Option (TcpRecvProxyProtocolConfig N)
  pub connection_handling_timeout : Option ℕ
  pub request_max_body_size : Option ℕ
  pub cache_enabled : Bool
  pub cache_dir : Option Bytes
  pub cache_max_entry : ℕ
  pub cache_max_each_size : ℕ
  pub cache_max_each_size_on_memory : ℕ
  pub http3 : Bool
  pub h3_alt_svc_max_age : ℕ
  pub h3_request_max_body_size : Option ℕ
  pub h3_max_concurrent_connections : ℕ
  pub h3_max_concurrent_bidistream : ℕ
  pub h3_max_concurrent_unistream : ℕ
  pub h3_max_idle_timeout : Option ℕ

abbrev pub or_else : Option ℕ → Option ℕ → Option ℕ
or_else none b = b
or_else (some a) b = some a

-- Zero switches a timeout off.
abbrev zero_is_none : ℕ → Option ℕ
zero_is_none x = if x == 0 then none else some x

abbrev pub ports_differ : Option ℕ → Option ℕ → Bool
ports_differ (some a) (some b) = not (a == b)
ports_differ _ _ = true

abbrev pub vec_of : Option OneOrMany → Option (List Bytes)
vec_of none = none
vec_of (some o) = some (into_vec o)

unfoldable pub body_size_of : Option BodySizeValue → Option (Option ℕ)
body_size_of none = some (some 268435456)
body_size_of (some v) = parse_body_size v

set_idle_timeout : Option ℕ → Option ℕ → Option ℕ
set_idle_timeout none old = old
set_idle_timeout (some x) old = zero_is_none x

not_set : Option Bool → Bool → Bool
not_set none old = old
not_set (some b) old = not b

module _ {N : Type 0} (nets : IpNets N) where
  unfoldable pub trusted_of : Option OneOrMany → Option (List N)
  trusted_of none = some []
  trusted_of (some entries) =
      resolve_trusted_proxy_entries nets (into_vec entries) >>= λ report. some report.cidrs

  -- `..Default::default()` with the settings that stand outside `experimental`.
  unfoldable pub base_config : ConfigToml → List SocketAddr → List N → Option ℕ → ProxyConfig N
  base_config toml sockets trusted body_size = record {
    listen_sockets = sockets;
    http_port = toml.listen_port;
    https_port = toml.listen_port_tls;
    public_https_port = or_else toml.public_https_port toml.listen_port_tls;
    tcp_listen_backlog = unwrap_or toml.tcp_listen_backlog 1024;
    proxy_idle_timeout = 20;
    upstream_idle_timeout = 20;
    keepalive = true;
    max_clients = unwrap_or toml.max_clients 512;
    max_clients_per_ip = unwrap_or toml.max_clients_per_ip 0;
    max_concurrent_streams = unwrap_or toml.max_concurrent_streams 64;
    redact_query_in_access_log = unwrap_or toml.redact_query_in_access_log false;
    sni_consistency = true;
    trusted_forwarded_proxies = trusted;
    tcp_recv_proxy_protocol = none;
    connection_handling_timeout = none;
    request_max_body_size = body_size;
    cache_enabled = false;
    cache_dir = none;
    cache_max_entry = 1000;
    cache_max_each_size = 65535;
    cache_max_each_size_on_memory = 65535;
    http3 = false;
    h3_alt_svc_max_age = 3600;
    h3_request_max_body_size = none;
    h3_max_concurrent_connections = 4096;
    h3_max_concurrent_bidistream = 64;
    h3_max_concurrent_unistream = 64;
    h3_max_idle_timeout = some 10;
  }

  unfoldable pub with_h3 : ProxyConfig N → Option Http3Option → ProxyConfig N
  unfolding set_idle_timeout
  with_h3 c none = c
  with_h3 c (some h3) = record c {
    http3 = true;
    h3_alt_svc_max_age = unwrap_or h3.alt_svc_max_age c.h3_alt_svc_max_age;
    h3_request_max_body_size = or_else h3.request_max_body_size c.h3_request_max_body_size;
    h3_max_concurrent_connections =
        unwrap_or h3.max_concurrent_connections c.h3_max_concurrent_connections;
    h3_max_concurrent_bidistream =
        unwrap_or h3.max_concurrent_bidistream c.h3_max_concurrent_bidistream;
    h3_max_concurrent_unistream =
        unwrap_or h3.max_concurrent_unistream c.h3_max_concurrent_unistream;
    h3_max_idle_timeout = set_idle_timeout h3.max_idle_timeout c.h3_max_idle_timeout;
  }

  unfoldable pub with_cache : ProxyConfig N → Option CacheOption → ProxyConfig N
  with_cache c none = c
  with_cache c (some cache) = record c {
    cache_enabled = true;
    cache_dir = some (unwrap_or cache.cache_dir (bytes "./cache"));
    cache_max_entry = unwrap_or cache.max_cache_entry c.cache_max_entry;
    cache_max_each_size = unwrap_or cache.max_cache_each_size c.cache_max_each_size;
    cache_max_each_size_on_memory =
        unwrap_or cache.max_cache_each_size_on_memory c.cache_max_each_size_on_memory;
  }

  unfoldable pub proxy_protocol_of :
      Option TcpRecvProxyProtocolOption → Option (Option (TcpRecvProxyProtocolConfig N))
  proxy_protocol_of none = some none
  proxy_protocol_of (some option) = do
    ensure (non_empty option.trusted_proxies)
    networks ← traverse nets.parse_net option.trusted_proxies
    some (some (record { trusted_proxies = networks; timeout = unwrap_or option.timeout 50 }))

  unfoldable pub with_experimental : ProxyConfig N → Option Experimental → Option (ProxyConfig N)
  unfolding with_h3 with_cache proxy_protocol_of not_set set_idle_timeout
  with_experimental c none = some c
  with_experimental c (some exp) = do
    receive ← proxy_protocol_of exp.tcp_recv_proxy_protocol
    let c' = with_cache (with_h3 c exp.h3) exp.cache
    some (record c' {
      sni_consistency = not_set exp.ignore_sni_consistency c.sni_consistency;
      connection_handling_timeout =
          set_idle_timeout exp.connection_handling_timeout c.connection_handling_timeout;
      tcp_recv_proxy_protocol = receive;
    })

  -- `TryInto<ProxyConfig>`.
  unfoldable pub build_proxy_config : AddressParsers → ConfigToml → Option (ProxyConfig N)
  unfolding trusted_of base_config with_experimental body_size_of
  build_proxy_config parsers toml = do
    ensure (not (is_some toml.https_redirection_port))
    ensure (is_some toml.listen_port || is_some toml.listen_port_tls)
    ensure (ports_differ toml.listen_port toml.listen_port_tls)
    ensure (not (is_some toml.public_https_port) || is_some toml.listen_port_tls)
    sockets ←
        build_listen_sockets parsers (vec_of toml.listen_address_v4) (vec_of toml.listen_address_v6)
          (unwrap_or toml.listen_ipv6 false) toml.listen_port toml.listen_port_tls
    trusted ← trusted_of toml.trusted_forwarded_proxies
    body_size ← body_size_of toml.request_max_body_size
    with_experimental (base_config toml sockets trusted body_size) toml.experimental
