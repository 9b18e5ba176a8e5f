-- ===== src/Examples/Configuring.antt =====
-- Configurations and bodies at concrete inputs: rpxy-bin/src/config/toml.rs and
-- rpxy-lib/src/hyper_ext/body_type.rs.
use rust_rpxy.Common.{
  any, length, ◌==◌, ==_refl, ==_iff, ℕ, ◌≡◌, ◌↔◌, ◌≤◌, ◌<◌, ◌⊎◌, refl, true, false, none, some,
  List, [], ◌∷◌, arith, Bytes, bytes,
}
use rust_rpxy.RequestBody.{data_frame, trailers, Polled, pending, ready, new_body, polls}
use rust_rpxy.RequestBody.Capped.{data_bytes, EndsAtOverrun, polls_limited}
use rust_rpxy.Net.{v4, v6}
use rust_rpxy.HeaderText.{split, trim, trim_start, trim_end}
use rust_rpxy.TrustedProxies.{
  IpNets, cloudflare, ResolutionReport, parse_alias, resolve_trusted_proxy_entries,
}
use rust_rpxy.TrustedProxies.Resolution.{IsEquality, listed, names, distinct, resolve-distinct}
use rust_rpxy.Config.ServerNames.{validate_server_name}
use rust_rpxy.Config.Hostnames.{HostName, validate_server_name_iff}
use rust_rpxy.Config.Sockets.{AddressParsers, build_listen_sockets}
use rust_rpxy.Config.HealthChecks.{
  enabled, default_health_check, build_health_check_config, validate_lb_health_check,
}
use rust_rpxy.Config.Apps.{build_app_config, reverse_proxies, build_reverse_proxy, build_health}
use rust_rpxy.Config.Proxy.{
  ConfigToml, ProxyConfig, base_config, build_proxy_config, with_experimental, body_size_of,
}
use rust_rpxy.Config.Settings.{Apps, AppConfigList, build_app, validate_and_build_settings}
use rust_rpxy.Config.Validated.{SoundSettings, validate_and_build_settings-Sound}

abbrev upload : List Polled
upload =
    ready (data_frame (bytes "abc"))
    ∷ pending
    ∷ ready (data_frame (bytes "de"))
    ∷ ready (trailers [])
    ∷ []

polls_limited_example :
    (data_bytes (polls 5 (new_body upload (some 4))) ≤ 4)
    × EndsAtOverrun (polls 5 (new_body upload (some 4)))
    × ((4 < data_bytes upload)
        ⊎ (polls 5 (new_body upload (some 4)) ≡ polls 5 (new_body upload none)))
polls_limited_example = polls_limited 5 upload 4 refl (omega arith)

validate_server_name_iff_example :
    (validate_server_name (bytes "www.a-b.example") ≡ true) ↔ HostName (bytes "www.a-b.example")
validate_server_name_iff_example = validate_server_name_iff (bytes "www.a-b.example")

rejects_path : validate_server_name (bytes "../etc") ≡ false
unfolding validate_server_name split
rejects_path = refl

abbrev parsers : AddressParsers
parsers = record { parse_v4 = λ s. some 0; parse_v6 = λ s. none }

abbrev no_nets : IpNets ℕ
no_nets = record { net_eq = λ a b. false; parse_net = λ s. none; cidr_strings = λ a. [] }

abbrev toml : ConfigToml
toml = record {
  listen_port = some 80;
  listen_port_tls = none;
  listen_address_v4 = none;
  listen_address_v6 = none;
  listen_ipv6 = some true;
  public_https_port = none;
  https_redirection_port = none;
  tcp_listen_backlog = none;
  max_concurrent_streams = none;
  max_clients = some 100;
  max_clients_per_ip = none;
  trusted_forwarded_proxies = none;
  redact_query_in_access_log = none;
  request_max_body_size = none;
  experimental = none;
}

abbrev apps : Apps
apps =
    (
      bytes "App",
      record {
        server_name = some (bytes "a.example");
        reverse_proxy = some (
            record {
              path = none;
              replace_path = none;
              upstream = record { location = bytes "127.0.0.1:8080"; tls = none } ∷ [];
              upstream_options = none;
              load_balance = some (bytes "primary_backup");
              health_check = some (enabled true);
            }
            ∷ []);
        tls = none;
      },
    )
    ∷ []

abbrev built : ProxyConfig ℕ × AppConfigList Bytes
built = (
  base_config no_nets toml (record { ip = v4 0; port = 80 } ∷ record { ip = v6 0; port = 80 } ∷ [])
      [] (some 268435456),
  record {
    inner =
        record {
          app_name = bytes "app";
          server_name = bytes "a.example";
          reverse_proxy =
              record {
                path = none;
                replace_path = none;
                upstream = bytes "http://127.0.0.1:8080" ∷ [];
                upstream_options = none;
                load_balance = some (bytes "primary_backup");
                health_check = some default_health_check;
              }
              ∷ [];
          tls = none;
        }
        ∷ [];
    default_app = none;
  },
)

builds :
    validate_and_build_settings no_nets parsers (λ s. some s) toml (some apps) none ≡ some built
unfolding validate_and_build_settings build_proxy_config build_app build_listen_sockets
    build_app_config reverse_proxies build_reverse_proxy build_health build_health_check_config
    validate_lb_health_check validate_server_name split base_config with_experimental body_size_of
builds = refl

validate_and_build_settings-Sound_example : SoundSettings built
validate_and_build_settings-Sound_example =
    validate_and_build_settings-Sound no_nets parsers (λ s. some s) toml (some apps) none built
      builds

abbrev nets : IpNets ℕ
nets = record {
  net_eq = λ a b. a == b;
  parse_net = λ s. some (length s);
  cidr_strings = λ a. bytes "2400:cb00::/32" ∷ bytes "10.0.0.0/8" ∷ [];
}

nets-IsEquality : IsEquality nets
nets-IsEquality = record { reflexive = ==_refl; sound = λ a b. (==_iff a b).0 }

abbrev entries : List Bytes
entries = bytes "10.0.0.0/8" ∷ bytes " Cloudflare" ∷ []

abbrev report : ResolutionReport ℕ
report = record { cidrs = 10 ∷ 14 ∷ []; expanded_aliases = cloudflare ∷ [] }

resolves : resolve_trusted_proxy_entries nets entries ≡ some report
unfolding resolve_trusted_proxy_entries parse_alias trim trim_start trim_end
resolves = refl

resolve-distinct_example :
    (distinct nets report.cidrs ≡ true)
    × ((n : ℕ) → listed nets n report.cidrs ≡ any (names nets n) entries)
resolve-distinct_example = resolve-distinct nets nets-IsEquality entries report resolves
