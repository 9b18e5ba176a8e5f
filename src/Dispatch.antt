-- ===== src/Dispatch.antt =====
-- How a request finds its upstream group: `handle_request_inner` of
-- rpxy-lib/src/message_handler/handler_main.rs up to the generated request, with the errors of
-- http_result.rs, the answers of synthetic_response.rs beside it, and the applications of
-- rpxy-lib/src/backend/backend_main.rs. A map of applications is the list of its entries.
pub mod Admission
pub mod Defaults
use rust_rpxy.Common.{
  ℕ, ◌≡◌, Bool, true, false, not, ◌&&◌, ◌||◌, Option, none, some, List, [], ◌∷◌, if◌then◌else◌,
  is_some, unwrap_or, Bytes, bytes, bytes_eq, to_ascii_lowercase,
}
use rust_rpxy.HeaderMap.{HeaderMap, HeaderValues}
use rust_rpxy.HopByHop.{extract_upgrade}
use rust_rpxy.Route.{PathName, get, insert, server_name}
use rust_rpxy.RequestOps.{
  Version, http_09, http_10, http_11, http_2, http_3, Request, inspect_parse_host,
  exceeds_content_length_limit,
}

pub data HttpError : Type 0 where
  invalid_host_in_request_header sni_host_inconsistency no_matching_backend_app : HttpError
  failed_to_redirect no_upstream_candidates failed_to_generate_upstream_request : HttpError
  failed_to_get_response_from_backend failed_to_add_set_cookie_in_response : HttpError
  failed_to_generate_downstream_response failed_to_upgrade payload_too_large other : HttpError

-- `impl From<HttpError> for StatusCode`.
pub status_code : HttpError → ℕ
status_code invalid_host_in_request_header = 400
status_code sni_host_inconsistency = 421
status_code no_matching_backend_app = 503
status_code failed_to_redirect = 500
status_code no_upstream_candidates = 404
status_code failed_to_generate_upstream_request = 500
status_code failed_to_get_response_from_backend = 502
status_code failed_to_add_set_cookie_in_response = 500
status_code failed_to_generate_downstream_response = 500
status_code failed_to_upgrade = 500
status_code payload_too_large = 413
status_code other = 500

-- A synthetic error answer: its status, and whether it closes the connection.
pub record ErrorResponse : Type 0 where
  pub status : ℕ
  pub connection_close : Bool

closes_on : Version → Bool
closes_on http_10 = true
closes_on http_11 = true
closes_on _ = false

-- The error branch of `handle_request`.
pub error_response : HttpError → Version → ErrorResponse
unfolding status_code closes_on
error_response payload_too_large version = record {
  status = status_code payload_too_large;
  connection_close = closes_on version;
}
error_response e version = record { status = status_code e; connection_close = false }

pub record BackendApp (V : Type 0) : Type 0 where
  pub app_name : Bytes
  pub server_name : Bytes
  pub path_manager : List (PathName × V)
  pub https_redirection : Option Bool

pub record BackendAppManager (V : Type 0) : Type 0 where
  pub apps : List (Bytes × BackendApp V)
  pub default_server_name : Option Bytes

pub record ProxyConfig : Type 0 where
  pub sni_consistency : Bool
  pub request_max_body_size : Option ℕ

-- The application that was found, and whether as the fallback.
pub data Found (V : Type 0) : Type 0 where
  found : BackendApp V → Bool → Found V
  missing panicked : Found V

-- What becomes of a request: an error, a redirection, or a request to a group of upstreams with the
-- protocol to upgrade to.
pub data Dispatched (V : Type 0) : Type 0 where
  refused : HttpError → Dispatched V
  redirected : BackendApp V → Dispatched V
  forwarded : BackendApp V → Bool → PathName × V → Option Bytes → Dispatched V
  panicked : Dispatched V

abbrev pub is_http_11 : Version → Bool
is_http_11 http_11 = true
is_http_11 _ = false

module _ {V : Type 0} where
  abbrev pub lookup : Bytes → List (Bytes × BackendApp V) → Option (BackendApp V)
  lookup name [] = none
  lookup name ((k, app) ∷ apps) =
      let rest = lookup name apps in if bytes_eq k name then some app else rest

  -- The applications of a configuration, each registered under its server name.
  register : List (Bytes × BackendApp V) → List (BackendApp V) → List (Bytes × BackendApp V)
  register apps [] = apps
  register apps (app ∷ rest) = register (insert app.server_name app apps) rest

  -- `default_server_name[0]`, in some order of the map.
  find_default : Bytes → List (Bytes × BackendApp V) → Option Bytes
  find_default name [] = none
  find_default name ((k, app) ∷ apps) =
      let rest = find_default name apps in
      if bytes_eq app.app_name name then some app.server_name else rest

  default_of : Option Bytes → List (Bytes × BackendApp V) → Option Bytes
  unfolding find_default
  default_of none apps = none
  default_of (some name) apps = find_default name apps

  -- `impl TryFrom<&AppConfigList> for BackendAppManager`, for applications that were built.
  pub manager_of : List (BackendApp V) → Option Bytes → BackendAppManager V
  unfolding register default_of
  manager_of configured default_app =
      let apps = register [] configured in
      record { apps = apps; default_server_name = default_of default_app apps }

  default_app : Option (BackendApp V) → Found V
  default_app none = panicked
  default_app (some app) = found app true

  fall_back_to : BackendAppManager V → Option Bytes → Found V
  unfolding default_app
  fall_back_to manager none = missing
  fall_back_to manager (some name) = default_app (lookup name manager.apps)

  find_app : BackendAppManager V → Bool → Option (BackendApp V) → Found V
  unfolding fall_back_to
  find_app manager tls (some app) = found app false
  find_app manager true none = missing
  find_app manager false none = fall_back_to manager manager.default_server_name

  with_candidates :
      HeaderValues → Request → BackendApp V → Bool → Option (PathName × V) → Dispatched V
  with_candidates values req app fallback none = refused no_upstream_candidates
  with_candidates values req app fallback (some candidates) =
      let upgrade = extract_upgrade values req.headers in
      if is_some upgrade && not (is_http_11 req.version)
      then refused failed_to_upgrade
      else forwarded app fallback candidates upgrade

  with_app : HeaderValues → Request → Bool → Found V → Dispatched V
  unfolding with_candidates
  with_app values req tls missing = refused no_matching_backend_app
  with_app values req tls panicked = panicked
  with_app values req tls (found app fallback) =
      if not tls && unwrap_or app.https_redirection false
      then redirected app
      else with_candidates values req app fallback (get req.uri.path app.path_manager)

  with_host :
      HeaderValues
      → ProxyConfig
      → BackendAppManager V
      → Request
      → Bool
      → Option Bytes
      → Option Bytes
      → Dispatched V
  unfolding with_app find_app
  with_host values config manager req tls tls_server_name none =
      refused invalid_host_in_request_header
  with_host values config manager req tls tls_server_name (some host) =
      let name = (server_name host).inner in
      if (tls && config.sni_consistency) && not (bytes_eq name (unwrap_or tls_server_name []))
      then refused sni_host_inconsistency
      else (if exceeds_content_length_limit values req.headers config.request_max_body_size
          then refused payload_too_large
          else with_app values req tls (find_app manager tls (lookup name manager.apps)))

  -- `handle_request_inner` up to `generate_request_forwarded`.
  unfoldable pub dispatch :
      HeaderValues
      → ProxyConfig
      → BackendAppManager V
      → Request
      → Bool
      → Option Bytes
      → Dispatched V
  unfolding with_host
  dispatch values config manager req tls tls_server_name =
      with_host values config manager req tls tls_server_name (inspect_parse_host req)
