-- ===== src/Examples/Requests.antt =====
-- Requests at a concrete configuration: rpxy-lib/src/message_handler/.
use rust_rpxy.Common.{
  ℕ, ◌≡◌, ◌↔◌, refl, true, false, ◌||◌, none, some, [], ◌∷◌, ◌++◌, bytes, bytes_eq, if◌then◌else◌,
  is_some, length, drop, to_ascii_lowercase, unwrap_or,
}
use rust_rpxy.HeaderMap.{HeaderValues, get}
use rust_rpxy.HopByHop.{extract_upgrade}
use rust_rpxy.Route.{matches, server_name}
use rust_rpxy.RequestOps.{
  http_11, http_2, http, https, Request, force_http2_upstream, drop_port, dropped,
  inspect_parse_host, update_request_line, exceeds_content_length_limit, rebuild_path_and_query,
}
use rust_rpxy.RequestOps.Hosts.{Names, drop_port-port, inspect_parse_host_iff}
use rust_rpxy.RequestOps.Paths.{rebuild-matches}
use rust_rpxy.Dispatch.{BackendApp, BackendAppManager, ProxyConfig, lookup, manager_of, dispatch}
use rust_rpxy.Dispatch.Admission.{Admitted, dispatch-Admitted, dispatch_tls}
use rust_rpxy.Dispatch.Defaults.{no_panic, dispatch_total}

abbrev values : HeaderValues
values = record { to_str = λ s. some s; from_str = λ s. some s; from_bytes = λ s. some s }

abbrev config : ProxyConfig
config = record { sni_consistency = true; request_max_body_size = some 100 }

abbrev app : BackendApp ℕ
app = record {
  app_name = bytes "app";
  server_name = bytes "a.example";
  path_manager = (bytes "/", 0) ∷ (bytes "/api", 1) ∷ [];
  https_redirection = some true;
}

abbrev manager : BackendAppManager ℕ
manager = record {
  apps = (bytes "a.example", app) ∷ [];
  default_server_name = some (bytes "a.example");
}

abbrev request : Request
request = record {
  headers = λ name. if bytes_eq name (bytes "host") then bytes "A.example:8443" ∷ [] else [];
  uri = record {
    scheme = none;
    host = none;
    path = bytes "/api/x";
    port = none;
    path_and_query = some (bytes "/api/x" ++ bytes "?q");
  };
  version = http_2;
}

drop_port_tests :
    (drop_port (bytes "Example.COM:8080") ≡ bytes "example.com")
    × (drop_port (bytes "2001:db8::1") ≡ bytes "2001:db8::1")
    × (drop_port (bytes "[2001:db8::1]:8080") ≡ bytes "2001:db8::1")
    × (drop_port (bytes "[2001:db8::1") ≡ bytes "2001:db8::1")
    × (drop_port [] ≡ [])
unfolding drop_port
drop_port_tests = (refl, refl, refl, refl, refl)

version_tests :
    (update_request_line request (some https) [] ≡ http_2)
    × (update_request_line request (some http) [] ≡ http_11)
    × (update_request_line request (some http) (force_http2_upstream ∷ []) ≡ http_2)
unfolding update_request_line
version_tests = (refl, refl, refl)

drop_port-port_example :
    (drop_port (bytes "A.example" ++ 58 ∷ bytes "8443") ≡ to_ascii_lowercase (bytes "A.example"))
    × (drop_port (bytes "A.example") ≡ to_ascii_lowercase (bytes "A.example"))
drop_port-port_example = drop_port-port (bytes "A.example") (bytes "8443") refl refl refl

inspect_parse_host_iff_example : (inspect_parse_host request ≡ some (bytes "a.example")) ↔ (
    Names (dropped (get request.headers (bytes "host"))) (bytes "a.example")
    × Names (dropped request.uri.host) (bytes "a.example")
    × (is_some (dropped (get request.headers (bytes "host"))) || is_some (dropped request.uri.host)
        ≡ true))
inspect_parse_host_iff_example = inspect_parse_host_iff request (bytes "a.example")

rebuild-matches_example :
    rebuild_path_and_query request.uri (some (bytes "/v2")) (bytes "/api")
    ≡ some (bytes "/v2" ++ (drop (length (bytes "/api")) request.uri.path ++ bytes "?q"))
unfolding matches
rebuild-matches_example =
    rebuild-matches request.uri (bytes "/v2") (bytes "/api") (bytes "?q") refl refl refl

dispatch-Admitted_example :
    Admitted values config manager request true
      (some (bytes "a.example"))
      app
      false
      (bytes "/api", 1)
      none
unfolding dispatch inspect_parse_host drop_port exceeds_content_length_limit server_name
    extract_upgrade rust_rpxy.Route.get matches
dispatch-Admitted_example =
    dispatch-Admitted values config manager request true (some (bytes "a.example")) app false
      (bytes "/api", 1) none refl

dispatch_tls_example :
    (lookup (unwrap_or (some (bytes "a.example")) []) manager.apps ≡ some app) × (false ≡ false)
unfolding dispatch inspect_parse_host drop_port exceeds_content_length_limit server_name
    extract_upgrade rust_rpxy.Route.get matches
dispatch_tls_example =
    dispatch_tls values config manager request (some (bytes "a.example")) app false
      (bytes "/api", 1) none refl refl

dispatch_total_example :
    no_panic
      (dispatch values config (manager_of (app ∷ []) (some (bytes "app"))) request false none)
    ≡ true
dispatch_total_example =
    dispatch_total values config (app ∷ []) (some (bytes "app")) request false none
