-- ===== src/Generation.antt =====
-- rpxy-lib/src/message_handler/handler_manipulate_messages.rs: the request that goes to the
-- upstream, and the response that goes back. What is inserted into the extensions for the cache,
-- and the scheme that the response's cookie is told of, are left out: see ClientScheme. An error,
-- and a panic of the balancer, is `none`.
pub mod Keeping
pub mod Forwarding
pub mod Options
pub mod Stages
pub mod Outgoing
pub mod Returned
use rust_rpxy.Common.{
  ℕ, ◌≡◌, Bool, true, false, not, ◌&&◌, Option, none, some, List, [], ◌∷◌, ◌++◌, if◌then◌else◌,
  is_some, ensure, ◌>>=◌, ◌>>◌, Bytes, bytes,
}
use rust_rpxy.Net.{SocketAddr}
use rust_rpxy.HeaderMap.{
  HeaderMap, HeaderValues, get, insert, remove, add_header_entry_overwrite_if_exist,
}
use rust_rpxy.ForwardedNode.{IpText}
use rust_rpxy.ForwardedEntry.{decimal, decimal_from}
use rust_rpxy.Forwarding.{IpNet}
use rust_rpxy.OutgoingHeaders.{add_forwarding_header}
use rust_rpxy.HopByHop.{connection, upgrade, remove_connection_header, remove_hop_header}
use rust_rpxy.RequestOps.{
  Version, Scheme, Uri, Request, UpstreamOption, te_contains_trailers, rebuild_path_and_query,
  update_request_line,
}
use rust_rpxy.Route.{ServerName}
use rust_rpxy.Upstream.{Upstream}
use rust_rpxy.LoadBalance.Candidates
use rust_rpxy.LoadBalance.Candidates.{UpstreamCandidates, LoadBalance, sticky}
use rust_rpxy.LoadBalance.Sticky.{StickyCookie}
use rust_rpxy.StickySeal.{SealCrates}
use rust_rpxy.StickyHeaders.{takeout_sticky_cookie_lb_context}
use rust_rpxy.UpstreamHeaders.{
  host, apply_default_app_host_rewrite, apply_upstream_options_to_header,
}

abbrev pub te : Bytes
te = bytes "te"

with_port : Bytes → Option ℕ → Bytes
with_port h none = h
with_port h (some port) = h ++ (bytes ":" ++ decimal port)

host_or_header : HeaderValues → Option Bytes → Option ℕ → Option Bytes → Option Bytes
unfolding with_port
host_or_header values (some h) port header = some (with_port h port)
host_or_header values none port header = header >>= values.to_str

-- `host_from_uri_or_host_header` of header_ops/common.rs.
unfoldable pub host_from_uri_or_host_header : HeaderValues → Uri → Option Bytes → Option Bytes
unfolding host_or_header
host_from_uri_or_host_header values uri header = host_or_header values uri.host uri.port header

-- The text of a URI, the scheme and authority of a rendered one, and the builder, of the http crate. The
-- builder checks the path and query.
pub record Uris : Type 0 where
  pub to_string : Uri → Bytes
  pub scheme : Bytes → Option Scheme
  pub authority : Bytes → Option Bytes
  pub build : Scheme → Bytes → Bytes → Option Uri

-- The candidates with what else the group is configured with.
pub record Group : Type 0 where
  pub candidates : UpstreamCandidates
  pub path : Bytes
  pub replace_path : Option Bytes
  pub options : List UpstreamOption

-- The random source and the clock of the balancers, the cipher of the sticky cookies, and the later readings of the health flags.
pub record Balancing : Type 0 where
  pub random_range : ℕ → ℕ
  pub ts : ℕ
  pub cipher : Option SealCrates
  pub now : List Upstream
  pub later : List Upstream

pub te_signalled : Option Bytes → Bool
te_signalled none = false
te_signalled (some v) = te_contains_trailers v

pub insert_host : HeaderValues → HeaderMap → Option Bytes → Option Bytes → Option HeaderMap
insert_host values headers (some original) uri_host = some headers
insert_host values headers none uri_host =
    uri_host >>= λ h. values.from_str h >>= λ v. some (insert headers host v)

pub rewrite_host : HeaderValues → HeaderMap → Option ServerName → Option HeaderMap
rewrite_host values headers none = some headers
rewrite_host values headers (some name) = apply_default_app_host_rewrite values headers name

-- An upgrade keeps the version, which is HTTP/1.1.
pub request_line :
    HeaderValues → Request → Option Bytes → Option Scheme → List UpstreamOption → Option Request
request_line values req none scheme options =
    some (record req { version = update_request_line req scheme options })
request_line values req (some v) scheme options = values.from_str v >>= λ value. some (record req {
  headers = insert (insert req.headers upgrade value) connection (bytes "upgrade");
})

-- The context of a sticky balancer; its cookie does not go on to the upstream.
pub take_context :
    HeaderValues → Balancing → LoadBalance → HeaderMap → Option (HeaderMap × Option StickyCookie)
take_context values balancing (sticky lb) headers = balancing.cipher >>= λ crates.
    takeout_sticky_cookie_lb_context values crates balancing.ts lb.sticky_config headers
take_context values balancing _ headers = some (headers, none)

module _ (text : IpText) (values : HeaderValues) (uris : Uris) (trusted : List IpNet) where
  -- Up to the choice of the upstream.
  pub prepare : SocketAddr → SocketAddr → Bool → Request → Option HeaderMap
  unfolding te_signalled insert_host
  prepare client_addr listen_addr tls req = do
    let original_host = get req.headers host
    let authoritative_host = host_from_uri_or_host_header values req.uri original_host
    let stripped = remove_hop_header (remove_connection_header values req.headers)
    forwarding ←
        add_forwarding_header text values stripped client_addr listen_addr tls
          (uris.to_string req.uri) authoritative_host trusted
    insert_host values
        (if te_signalled (get req.headers te)
          then insert forwarding te (bytes "trailers")
          else forwarding)
        original_host req.uri.host

  -- From the choice on, with the prepared headers.
  pub finish :
      Request → Option Bytes → Group → Option ServerName → HeaderMap → Upstream → Option Request
  unfolding rewrite_host request_line
  finish req upgrade_token group fallback_host headers upstream = do
    let authoritative_host = host_from_uri_or_host_header values req.uri (get req.headers host)
    optioned ←
        apply_upstream_options_to_header text values headers authoritative_host upstream.host_header
          group.options trusted
    rewritten ← rewrite_host values optioned fallback_host
    authority ← uris.authority upstream.uri
    scheme ← uris.scheme upstream.uri
    new_pq ← rebuild_path_and_query req.uri group.replace_path group.path
    new_uri ← uris.build scheme authority new_pq
    request_line values (record req { headers = rewritten; uri = new_uri }) upgrade_token
        (some scheme) group.options

  unfoldable pub generate_request_forwarded :
      Balancing
      → SocketAddr
      → SocketAddr
      → Request
      → Option Bytes
      → Group
      → Bool
      → Option ServerName
      → Option (UpstreamCandidates × Option StickyCookie × Request)
  unfolding prepare finish take_context
  generate_request_forwarded balancing client_addr listen_addr req upgrade_token group tls
        fallback =
      do
        prepared ← prepare client_addr listen_addr tls req
        taken ← take_context values balancing group.candidates.load_balance prepared
        let (candidates, choice) =
            Candidates.get balancing.random_range balancing.ts group.candidates taken.1
              balancing.now balancing.later
        chosen ← choice
        upstream ← chosen.0
        forwarded_req ← finish req upgrade_token group fallback taken.0 upstream
        some (candidates, chosen.1, forwarded_req)

-- What `h3_alt_svc_port` reads of the configuration.
pub record AltSvc : Type 0 where
  pub http3 : Bool
  pub public_https_port : Option ℕ
  pub h3_alt_svc_max_age : ℕ

is_plain_tls : Option Bool → Bool
is_plain_tls (some false) = true
is_plain_tls _ = false

pub h3_alt_svc_port : AltSvc → Option Bool → Bool → Option ℕ
unfolding is_plain_tls
h3_alt_svc_port config mutual_tls secure =
    if config.http3 && (secure && is_plain_tls mutual_tls) then config.public_https_port else none

abbrev pub alt_svc : Bytes
alt_svc = bytes "alt-svc"

write_alt_svc : HeaderValues → HeaderMap → Option ℕ → ℕ → Option HeaderMap
write_alt_svc values headers none max_age = some (remove headers alt_svc)
write_alt_svc values headers (some port) max_age =
    add_header_entry_overwrite_if_exist values headers alt_svc
      (bytes "h3=\":" ++ (decimal port ++ (bytes "\"; ma=" ++ decimal_from 10 max_age [])))

-- The headers of a response.
pub generate_response_forwarded :
    HeaderValues → AltSvc → HeaderMap → Option Bool → Bool → Option HeaderMap
unfolding write_alt_svc h3_alt_svc_port
generate_response_forwarded values config headers mutual_tls secure =
    add_header_entry_overwrite_if_exist values
      (remove_hop_header (remove_connection_header values headers)) (bytes "server") (bytes "rpxy")
    >>= λ h.
        write_alt_svc values h (h3_alt_svc_port config mutual_tls secure) config.h3_alt_svc_max_age
