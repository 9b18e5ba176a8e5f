-- ===== src/Forwarding.antt =====
-- The forwarding chain of rpxy-lib/src/message_handler/header_ops/forwarding.rs: how it is read from
-- the incoming headers, cut at the trust boundary and printed, and the client-visible scheme. An
-- error is `none`. `IpNet::contains` of the configured networks is a list of predicates.
pub mod Boundary
pub mod Normalized
use rust_rpxy.Common.{
  ℕ, zero, suc, ◌+◌, ◌-◌, ◌≡◌, Bool, true, false, not, ◌&&◌, ◌||◌, Option, none, some, List, [],
  ◌∷◌, ◌++◌, if◌then◌else◌, ◌==◌, length, get_elem?, take, drop, any, is_some, and_then, Bytes,
  bytes, bytes_eq,
}
use rust_rpxy.Net.{IpAddr, SocketAddr, ip_eq, to_canonical, canonicalize_ip}
use rust_rpxy.HeaderText.{
  is_empty, trim, split, non_empty_trimmed, split_once, split_respecting_quotes,
  eq_ignore_ascii_case, unquote_http_value,
}
use rust_rpxy.HeaderMap.{HeaderMap, HeaderValues, get, contains_key, join_header_values}
use rust_rpxy.ForwardedNode.{
  IpText, ForwardedNodeRaw, ip, ForwardedNode, ForwardedEntry, parse_forwarded_ip_token,
}
use rust_rpxy.ForwardedEntry.{parse_forwarded_header_entry}

abbrev pub forwarded : Bytes
forwarded = bytes "forwarded"

abbrev pub x_forwarded_for : Bytes
x_forwarded_for = bytes "x-forwarded-for"

abbrev pub x_forwarded_proto : Bytes
x_forwarded_proto = bytes "x-forwarded-proto"

abbrev pub IpNet : Type 0
IpNet = IpAddr → Bool

unfoldable pub build_peer_forwarded_entry : IpAddr → Bool → Option Bytes → ForwardedEntry
build_peer_forwarded_entry peer_ip tls host = record {
  for_node = record { ip = some peer_ip; port = none; raw = ip };
  proto = if tls then some (bytes "https") else some (bytes "http");
  host = host;
  by = none;
}

unfoldable pub is_trusted_proxy : IpAddr → List IpNet → Bool
is_trusted_proxy addr trusted = any (λ net. net (canonicalize_ip addr)) trusted

ip_is_trusted : Option IpAddr → List IpNet → Bool
unfolding is_trusted_proxy
ip_is_trusted none trusted = false
ip_is_trusted (some addr) trusted = is_trusted_proxy addr trusted

unfoldable pub entry_is_trusted_proxy : ForwardedEntry → List IpNet → Bool
unfolding ip_is_trusted
entry_is_trusted_proxy entry trusted = ip_is_trusted entry.for_node.ip trusted

trusted_at : Option ForwardedEntry → List IpNet → Bool
unfolding entry_is_trusted_proxy
trusted_at none trusted = false
trusted_at (some entry) trusted = entry_is_trusted_proxy entry trusted

-- The loop of `reduce_trusted_proxy_chain`, from `idx` down.
boundary_from : List ForwardedEntry → List IpNet → ℕ → ℕ
unfolding trusted_at
boundary_from chain trusted zero = zero
boundary_from chain trusted (suc i) =
    let rest = boundary_from chain trusted i in
    if trusted_at (get_elem? chain i) trusted then rest else suc i

drain_before : List ForwardedEntry → ℕ → List ForwardedEntry
drain_before chain zero = chain
drain_before chain (suc authoritative_idx) = drop authoritative_idx chain

unfoldable pub reduce_trusted_proxy_chain : List ForwardedEntry → List IpNet → List ForwardedEntry
unfolding boundary_from drain_before
reduce_trusted_proxy_chain chain trusted =
    drain_before chain (boundary_from chain trusted (length chain))

first_value : HeaderValues → Option Bytes → Option (Option Bytes)
first_value values none = some none
first_value values (some v) = and_then (values.to_str v) (λ s. some (some s))

unfoldable pub first_header_value : HeaderValues → HeaderMap → Bytes → Option (Option Bytes)
unfolding first_value
first_header_value values headers key = first_value values (get headers key)

trimmed_value : Option Bytes → Option Bytes
trimmed_value none = none
trimmed_value (some s) = some (trim s)

xff_entry : IpAddr → Option Bytes → Option Bytes → Bool → ForwardedEntry
xff_entry addr proto host is_last = record {
  for_node = record { ip = some addr; port = none; raw = ip };
  proto = if is_last then proto else none;
  host = if is_last then host else none;
  by = none;
}

xff_entries :
    IpText → Option Bytes → Option Bytes → ℕ → ℕ → List Bytes → Option (List ForwardedEntry)
unfolding xff_entry
xff_entries text proto host last_idx idx [] = some []
xff_entries text proto host last_idx idx (token ∷ ips) =
    and_then (parse_forwarded_ip_token text token) (λ addr.
      and_then (xff_entries text proto host last_idx (suc idx) ips)
        (λ rest. some (xff_entry addr proto host (idx == last_idx) ∷ rest)))

xff_chain : IpText → List Bytes → Option Bytes → Option Bytes → Option (List ForwardedEntry)
unfolding xff_entries
xff_chain text ips proto host = xff_entries text proto host (length ips - 1) 0 ips

pub parse_x_forwarded_for_header :
    IpText → HeaderValues → HeaderMap → Option Bytes → Option (List ForwardedEntry)
unfolding xff_chain trimmed_value first_header_value
parse_x_forwarded_for_header text values headers host =
    and_then (join_header_values values headers x_forwarded_for) (λ joined. and_then joined (λ xff.
      and_then (first_header_value values headers x_forwarded_proto)
        (λ proto. xff_chain text (non_empty_trimmed (split 44 xff)) (trimmed_value proto) host)))

parse_entries : IpText → List Bytes → Option (List ForwardedEntry)
parse_entries text [] = some []
parse_entries text (entry ∷ entries) =
    let rest = parse_entries text entries in
    if is_empty entry
    then rest
    else and_then (parse_forwarded_header_entry text entry)
        (λ e. and_then rest (λ es. some (e ∷ es)))

pub parse_forwarded_header : IpText → HeaderValues → HeaderMap → Option (List ForwardedEntry)
unfolding parse_entries
parse_forwarded_header text values headers =
    and_then (join_header_values values headers forwarded)
      (λ joined. and_then joined (λ value. parse_entries text (split_respecting_quotes value 44)))

abbrev pub option_ip_eq : Option IpAddr → Option IpAddr → Bool
option_ip_eq none none = true
option_ip_eq (some a) (some b) = ip_eq a b
option_ip_eq _ _ = false

abbrev pub ips_eq : List ForwardedEntry → List ForwardedEntry → Bool
ips_eq [] [] = true
ips_eq (a ∷ xs) (b ∷ ys) = option_ip_eq a.for_node.ip b.for_node.ip && ips_eq xs ys
ips_eq _ _ = false

abbrev pub last_proto : List ForwardedEntry → Option Bytes
last_proto [] = none
last_proto (e ∷ []) = e.proto
last_proto (e ∷ f ∷ es) = last_proto (f ∷ es)

abbrev pub protos_agree : Option Bytes → Option Bytes → Bool
protos_agree (some a) (some b) = eq_ignore_ascii_case a (trim b)
protos_agree _ _ = true

pub forwarded_is_consistent : List ForwardedEntry → List ForwardedEntry → Bool
forwarded_is_consistent fwd xff =
    if not (length fwd == length xff)
    then false
    else (if not (ips_eq fwd xff) then false else protos_agree (last_proto fwd) (last_proto xff))

-- The chain of each header, or `none` without one.
read_xff : IpText → HeaderValues → HeaderMap → Option Bytes → Option (Option (List ForwardedEntry))
unfolding parse_x_forwarded_for_header
read_xff text values headers host =
    if contains_key headers x_forwarded_for
    then and_then (parse_x_forwarded_for_header text values headers host)
        (λ chain. some (some chain))
    else some none

or_fall_back :
    Option (List ForwardedEntry)
    → Option (List ForwardedEntry)
    → Option (Option (List ForwardedEntry))
or_fall_back (some chain) xff = some (some chain)
or_fall_back none (some chain) = some none
or_fall_back none none = none

read_forwarded :
    IpText
    → HeaderValues
    → HeaderMap
    → Option (List ForwardedEntry)
    → Option (Option (List ForwardedEntry))
unfolding or_fall_back parse_forwarded_header
read_forwarded text values headers xff =
    if contains_key headers forwarded
    then or_fall_back (parse_forwarded_header text values headers) xff
    else some none

choose_chain :
    Option (List ForwardedEntry) → Option (List ForwardedEntry) → Option (List ForwardedEntry)
unfolding forwarded_is_consistent
choose_chain (some fwd) (some xff) = if forwarded_is_consistent fwd xff then some fwd else some xff
choose_chain (some fwd) none = some fwd
choose_chain none xff = xff

unfoldable pub extract_forwarding_chain_from_headers :
    IpText → HeaderValues → HeaderMap → Option Bytes → Option (Option (List ForwardedEntry))
unfolding read_xff read_forwarded choose_chain
extract_forwarding_chain_from_headers text values headers host =
    and_then (read_xff text values headers host) (λ xff.
      and_then (read_forwarded text values headers xff) (λ fwd. some (choose_chain fwd xff)))

or_peer : ForwardedEntry → List ForwardedEntry → List ForwardedEntry
or_peer peer_entry [] = peer_entry ∷ []
or_peer peer_entry (e ∷ es) = e ∷ es

append_peer : ForwardedEntry → List IpNet → List ForwardedEntry → List ForwardedEntry
unfolding reduce_trusted_proxy_chain or_peer
append_peer peer_entry trusted [] = peer_entry ∷ []
append_peer peer_entry trusted (e ∷ es) =
    or_peer peer_entry (reduce_trusted_proxy_chain ((e ∷ es) ++ peer_entry ∷ []) trusted)

-- The chain that was found, or none, or an error, made the outgoing one.
unfoldable pub normalize_found :
    ForwardedEntry → List IpNet → Option (Option (List ForwardedEntry)) → List ForwardedEntry
unfolding append_peer
normalize_found peer_entry trusted (some (some chain)) = append_peer peer_entry trusted chain
normalize_found peer_entry trusted (some none) = peer_entry ∷ []
normalize_found peer_entry trusted none = peer_entry ∷ []

unfoldable pub normalize_forwarding_chain :
    IpText
    → HeaderValues
    → HeaderMap
    → IpAddr
    → Bool
    → Option Bytes
    → List IpNet
    → List ForwardedEntry
unfolding normalize_found
normalize_forwarding_chain text values headers peer_ip tls host trusted =
    let peer_entry = build_peer_forwarded_entry peer_ip tls host in
    if not (is_trusted_proxy peer_ip trusted)
    then peer_entry ∷ []
    else normalize_found peer_entry trusted
        (extract_forwarding_chain_from_headers text values headers none)
