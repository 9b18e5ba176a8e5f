-- ===== src/UpstreamHeaders.antt =====
-- rpxy-lib/src/message_handler/header_ops/upstream.rs: the headers that the options of the upstream group and
-- the fallback to the default application set, with the parser of the options in
-- rpxy-lib/src/backend/upstream_opts.rs. An error is `none`.
use rust_rpxy.Common.{
  Bool, true, false, not, ◌&&◌, Option, none, some, List, [], ◌∷◌, if◌then◌else◌, any, ◌>>=◌, Bytes,
  bytes, bytes_eq,
}
use rust_rpxy.HeaderMap.{
  HeaderMap, HeaderValues, contains_key, insert, add_header_entry_overwrite_if_exist,
}
use rust_rpxy.ForwardedNode.{IpText, ForwardedEntry}
use rust_rpxy.ForwardedEntry.{generate_forwarded_header}
use rust_rpxy.Forwarding.{
  IpNet, forwarded, extract_forwarding_chain_from_headers, reduce_trusted_proxy_chain,
}
use rust_rpxy.RequestOps.{
  UpstreamOption, keep_original_host, set_upstream_host, upgrade_insecure_requests,
  force_http11_upstream, force_http2_upstream, forwarded_header,
}
use rust_rpxy.Route.{ServerName}

abbrev pub named : List (Bytes × UpstreamOption) → Bytes → Option UpstreamOption
named [] val = none
named ((name, option) ∷ rest) val =
    let later = named rest val in if bytes_eq val name then some option else later

-- `UpstreamOption::try_from`.
pub parse_upstream_option : Bytes → Option UpstreamOption
parse_upstream_option = named (
    (bytes "keep_original_host", keep_original_host)
    ∷ (bytes "set_upstream_host", set_upstream_host)
    ∷ (bytes "upgrade_insecure_requests", upgrade_insecure_requests)
    ∷ (bytes "force_http11_upstream", force_http11_upstream)
    ∷ (bytes "force_http2_upstream", force_http2_upstream)
    ∷ (bytes "forwarded_header", forwarded_header)
    ∷ [])

abbrev pub option_eq : UpstreamOption → UpstreamOption → Bool
option_eq keep_original_host keep_original_host = true
option_eq set_upstream_host set_upstream_host = true
option_eq upgrade_insecure_requests upgrade_insecure_requests = true
option_eq force_http11_upstream force_http11_upstream = true
option_eq force_http2_upstream force_http2_upstream = true
option_eq forwarded_header forwarded_header = true
option_eq _ _ = false

abbrev pub contains : List UpstreamOption → UpstreamOption → Bool
contains options option = any (option_eq option) options

abbrev pub host : Bytes
host = bytes "host"

abbrev pub upgrade_insecure : Bytes
upgrade_insecure = bytes "upgrade-insecure-requests"

unfoldable pub override_host_header : HeaderMap → Option Bytes → Option HeaderMap
override_host_header headers none = none
override_host_header headers (some value) = some (insert headers host value)

unfoldable pub apply_default_app_host_rewrite :
    HeaderValues → HeaderMap → ServerName → Option HeaderMap
apply_default_app_host_rewrite values headers authoritative_host =
    values.from_bytes authoritative_host.inner >>= λ v. some (insert headers host v)

unfoldable pub set_host : HeaderMap → Option Bytes → List UpstreamOption → Option HeaderMap
unfolding override_host_header
set_host headers host_header options =
    if contains options set_upstream_host && not (contains options keep_original_host)
    then override_host_header headers host_header
    else some headers

unfoldable pub upgrade_insecurely : HeaderMap → List UpstreamOption → HeaderMap
upgrade_insecurely headers options =
    if contains options upgrade_insecure_requests && not (contains_key headers upgrade_insecure)
    then insert headers upgrade_insecure (bytes "1")
    else headers

unfoldable pub add_generated : HeaderValues → HeaderMap → Option Bytes → Option HeaderMap
add_generated values headers none = some headers
add_generated values headers (some value) =
    add_header_entry_overwrite_if_exist values headers forwarded value

unfoldable pub add_found :
    IpText → HeaderValues → HeaderMap → List IpNet → Option (List ForwardedEntry) → Option HeaderMap
unfolding add_generated
add_found text values headers trusted none = some headers
add_found text values headers trusted (some chain) =
    add_generated values headers
      (generate_forwarded_header text (reduce_trusted_proxy_chain chain trusted))

unfoldable pub add_forwarded :
    IpText
    → HeaderValues
    → HeaderMap
    → Option Bytes
    → List UpstreamOption
    → List IpNet
    → Option HeaderMap
unfolding add_found
add_forwarded text values headers authoritative_host options trusted =
    if contains options forwarded_header && not (contains_key headers forwarded)
    then extract_forwarding_chain_from_headers text values headers authoritative_host
      >>= add_found text values headers trusted
    else some headers

unfoldable pub apply_upstream_options_to_header :
    IpText
    → HeaderValues
    → HeaderMap
    → Option Bytes
    → Option Bytes
    → List UpstreamOption
    → List IpNet
    → Option HeaderMap
unfolding set_host upgrade_insecurely add_forwarded
apply_upstream_options_to_header text values headers authoritative_host host_header options
      trusted =
    set_host headers host_header options >>= λ h.
    add_forwarded text values (upgrade_insecurely h options) authoritative_host options trusted
