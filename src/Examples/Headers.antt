-- ===== src/Examples/Headers.antt =====
-- Headers at concrete requests: rpxy-lib/src/message_handler/header_ops/.
use rust_rpxy.Common.{
  ◌≡◌, refl, true, Option, none, some, List, [], ◌∷◌, ◌++◌, Bytes, bytes, bytes_eq, if◌then◌else◌,
  unwrap_or,
}
use rust_rpxy.Net.{IpAddr, v4, v6, SocketAddr, ip_eq, to_canonical, canonicalize_ip}
use rust_rpxy.HeaderText.{
  quote, eq_ignore_ascii_case, non_empty_trimmed, split, trim, trim_start, trim_end, strip_prefix,
  strip_suffix, rsplit_once, unquote_http_value, write_forwarded_param_value,
}
use rust_rpxy.HeaderText.Quoting.{unquote-write}
use rust_rpxy.HeaderMap.{
  join_header_values, HeaderMap, HeaderValues, set_lines, make_cookie_single_line,
  add_header_entry_overwrite_if_exist,
}
use rust_rpxy.ForwardedNode.{
  parse_forwarded_ip_token, is_forwarded_obfuscated_id, IpText, ip, ForwardedEntry,
}
use rust_rpxy.ForwardedEntry.{xff_csv_from_chain}
use rust_rpxy.ForwardedEntry.XForwardedFor.{ips_of, csv_contract, xff_csv_from_chain_lem}
use rust_rpxy.Forwarding.{
  IpNet, first_header_value, is_trusted_proxy, entry_is_trusted_proxy, build_peer_forwarded_entry,
  reduce_trusted_proxy_chain, normalize_forwarding_chain, extract_forwarding_chain_from_headers,
  x_forwarded_for,
}
use rust_rpxy.Forwarding.Boundary.{trusted_suffix, reduce_lem}
use rust_rpxy.Forwarding.Normalized.{normalize_forged}
use rust_rpxy.OutgoingHeaders.{add_forwarding_header}
use rust_rpxy.OutgoingHeaders.Addresses.{Told, add_forwarding_header-Told}
use rust_rpxy.HopByHop.{hop_headers, remove_connection_header, remove_hop_header}
use rust_rpxy.HopByHop.Removal.{lines_without, first_listed, removal_lem}

-- Every value is readable, and the texts of two addresses are known.
abbrev values : HeaderValues
values = record { to_str = λ s. some s; from_str = λ s. some s; from_bytes = λ s. some s }

abbrev text : IpText
text = record {
  from_str = λ s.
      if bytes_eq s (bytes "1.2.3.4")
      then some (v4 16909060)
      else (if bytes_eq s (bytes "10.0.0.1")
          then some (v4 167772161)
          else (if bytes_eq s (bytes "6.6.6.6") then some (v4 101058054) else none));
  show_v6 = λ _. bytes "::1";
}

-- The networks of the trusted proxies: one address.
abbrev trusted : List IpNet
trusted = (λ a. ip_eq a (v4 167772161)) ∷ []

abbrev request : HeaderMap
request name =
    if bytes_eq name x_forwarded_for
    then bytes "6.6.6.6, 1.2.3.4" ∷ bytes "10.0.0.1" ∷ []
    else (if bytes_eq name (bytes "connection") then bytes "close, X-Private" ∷ [] else [])

abbrev hop_at : IpAddr → Option Bytes → ForwardedEntry
hop_at addr proto = record {
  for_node = record { ip = some addr; port = none; raw = ip };
  proto = proto;
  host = none;
  by = none;
}

unquote-write_example :
    unquote_http_value (write_forwarded_param_value [] (bytes "a:1" ++ quote ∷ []))
    ≡ some (bytes "a:1" ++ quote ∷ [])
unquote-write_example = unquote-write (bytes "a:1" ++ quote ∷ [])

reduce_lem_example :
    reduce_trusted_proxy_chain
      (hop_at (v4 101058054) none ∷ hop_at (v4 16909060) none ∷ hop_at (v4 167772161) none ∷ [])
      trusted
    ≡ trusted_suffix
        (hop_at (v4 101058054) none ∷ hop_at (v4 16909060) none ∷ hop_at (v4 167772161) none ∷ [])
        trusted
reduce_lem_example =
    reduce_lem
      (hop_at (v4 101058054) none ∷ hop_at (v4 16909060) none ∷ hop_at (v4 167772161) none ∷ [])
      trusted

-- The client 1.2.3.4 put 6.6.6.6 into its own header.
normalize_forged_example :
    normalize_forwarding_chain text values request (v4 167772161) true none trusted
    ≡ hop_at (v4 16909060) none ∷ (hop_at (v4 167772161) none ∷ [])
      ++ build_peer_forwarded_entry (v4 167772161) true none ∷ []
unfolding is_trusted_proxy canonicalize_ip entry_is_trusted_proxy
    extract_forwarding_chain_from_headers join_header_values first_header_value non_empty_trimmed
    split trim trim_start trim_end parse_forwarded_ip_token unquote_http_value strip_prefix
    strip_suffix rsplit_once is_forwarded_obfuscated_id eq_ignore_ascii_case
normalize_forged_example =
    normalize_forged text values request (v4 167772161) true none trusted
      (hop_at (v4 101058054) none ∷ []) (hop_at (v4 16909060) none)
      (hop_at (v4 167772161) none ∷ []) refl refl refl refl

abbrev peer_addr : SocketAddr
peer_addr = record { ip = v4 167772161; port = 40000 }

abbrev told : HeaderMap
told =
    unwrap_or
      (add_forwarding_header text values request peer_addr peer_addr true (bytes "/") none trusted)
      request

is_told :
    add_forwarding_header text values request peer_addr peer_addr true (bytes "/") none trusted
    ≡ some told
unfolding add_forwarding_header make_cookie_single_line set_lines
    add_header_entry_overwrite_if_exist
is_told = refl

add_forwarding_header-Told_example :
    Told text values
      (normalize_forwarding_chain text values request
        (canonicalize_ip (to_canonical peer_addr).ip)
        true
        none
        trusted)
      (build_peer_forwarded_entry (canonicalize_ip (to_canonical peer_addr).ip) true none)
      trusted
      told
add_forwarding_header-Told_example =
    add_forwarding_header-Told text values request peer_addr peer_addr true (bytes "/") none trusted
      told is_told

xff_csv_from_chain_lem_example :
    xff_csv_from_chain text (hop_at (v4 16909060) none ∷ hop_at (v6 1) none ∷ [])
    ≡ csv_contract text (ips_of (hop_at (v4 16909060) none ∷ hop_at (v6 1) none ∷ []))
xff_csv_from_chain_lem_example =
    xff_csv_from_chain_lem text (hop_at (v4 16909060) none ∷ hop_at (v6 1) none ∷ [])

abbrev proxy_addr : SocketAddr
proxy_addr = record { ip = v4 167772161; port = 5000 }

removal_lem_example :
    remove_hop_header (remove_connection_header values request) (bytes "x-private")
    ≡ lines_without (hop_headers ++ first_listed values request) request (bytes "x-private")
removal_lem_example = removal_lem values request (bytes "x-private")
