-- ===== src/OutgoingHeaders.antt =====
-- The forwarding headers of the outgoing request, `add_forwarding_header` of
-- rpxy-lib/src/message_handler/header_ops/forwarding.rs. An error, with which the request fails, is
-- `none`. `HeaderValue::try_from` of a String accepts what `from_bytes` does.
pub mod Lines
pub mod Addresses
use rust_rpxy.Common.{
  ℕ, ◌≡◌, Bool, true, false, Option, none, some, List, [], ◌∷◌, ◌++◌, if◌then◌else◌, length, take,
  and_then, Bytes, bytes,
}
use rust_rpxy.Net.{IpAddr, SocketAddr, to_canonical, canonicalize_ip}
use rust_rpxy.HeaderMap.{
  HeaderMap, HeaderValues, contains_key, insert, remove, add_header_entry_overwrite_if_exist,
  make_cookie_single_line,
}
use rust_rpxy.ForwardedNode.{IpText, ForwardedEntry}
use rust_rpxy.ForwardedEntry.{decimal, push_ip_addr, xff_csv_from_chain, generate_forwarded_header}
use rust_rpxy.Forwarding.{
  IpNet, forwarded, x_forwarded_for, x_forwarded_proto, build_peer_forwarded_entry,
  normalize_forwarding_chain,
}

abbrev pub x_forwarded_port : Bytes
x_forwarded_port = bytes "x-forwarded-port"

abbrev pub x_forwarded_ssl : Bytes
x_forwarded_ssl = bytes "x-forwarded-ssl"

abbrev pub x_forwarded_host : Bytes
x_forwarded_host = bytes "x-forwarded-host"

abbrev pub x_original_uri : Bytes
x_original_uri = bytes "x-original-uri"

abbrev pub x_real_ip : Bytes
x_real_ip = bytes "x-real-ip"

abbrev pub proxy : Bytes
proxy = bytes "proxy"

-- The chain, its text and the length of the text's first element.
pub record View : Type 0 where
  pub chain : List ForwardedEntry
  pub xff_csv : Bytes
  pub xff_first_len : ℕ

-- A chain with a hop that is no address gives way to the peer alone.
unfoldable pub view_of :
    IpText → IpAddr → ForwardedEntry → List ForwardedEntry → Option (Bytes × ℕ) → View
view_of text peer_ip peer_entry chain (some (csv, first_len)) = record {
  chain = chain;
  xff_csv = csv;
  xff_first_len = first_len;
}
view_of text peer_ip peer_entry chain none =
    let csv = push_ip_addr text [] peer_ip in
    record { chain = peer_entry ∷ []; xff_csv = csv; xff_first_len = length csv }

unfoldable pub forwarding_view :
    IpText → HeaderValues → HeaderMap → IpAddr → Bool → Option Bytes → List IpNet → View
unfolding view_of
forwarding_view text values headers peer_ip tls host trusted =
    let chain = normalize_forwarding_chain text values headers peer_ip tls host trusted in
    view_of text peer_ip (build_peer_forwarded_entry peer_ip tls host) chain
      (xff_csv_from_chain text chain)

unfoldable pub update_forwarded : HeaderValues → HeaderMap → Option Bytes → Option HeaderMap
update_forwarded values headers none = some headers
update_forwarded values headers (some value) =
    add_header_entry_overwrite_if_exist values headers forwarded value

unfoldable pub write_forwarded :
    IpText → HeaderValues → Bool → List ForwardedEntry → HeaderMap → Option HeaderMap
unfolding update_forwarded
write_forwarded text values has_forwarded chain headers =
    if has_forwarded
    then update_forwarded values headers (generate_forwarded_header text chain)
    else some (remove headers forwarded)

-- `overwrite_x_forwarded_host_from_original`.
unfoldable pub overwrite_host : HeaderValues → HeaderMap → Option Bytes → Option HeaderMap
overwrite_host values headers none = some (remove headers x_forwarded_host)
overwrite_host values headers (some host) =
    and_then (values.from_str host) (λ v. some (insert headers x_forwarded_host v))

-- The headers that are always overwritten, in the order of the source.
unfoldable pub write_downstream :
    HeaderValues → HeaderMap → ℕ → Bool → Bytes → Bytes → Option Bytes → Option HeaderMap
unfolding overwrite_host
write_downstream values headers listen_port tls real_ip original_uri host =
    let h₁ = insert headers x_forwarded_proto (if tls then bytes "https" else bytes "http") in
    let h₂ = insert h₁ x_forwarded_port (decimal listen_port) in
    let h₃ = insert h₂ x_real_ip real_ip in
    let h₄ = insert h₃ x_forwarded_ssl (if tls then bytes "on" else bytes "off") in
    and_then (add_header_entry_overwrite_if_exist values h₄ x_original_uri original_uri)
      (λ h₅. and_then (overwrite_host values h₅ host) (λ h₆. some (insert h₆ proxy [])))

unfoldable pub write_view :
    IpText → HeaderValues → HeaderMap → View → ℕ → Bool → Bytes → Option Bytes → Option HeaderMap
unfolding write_forwarded write_downstream
write_view text values headers view listen_port tls original_uri host =
    and_then (values.from_str (take view.xff_first_len view.xff_csv)) (λ real_ip.
      and_then (values.from_bytes view.xff_csv) (λ xff.
        and_then
          (write_forwarded text values (contains_key headers forwarded) view.chain
            (insert headers x_forwarded_for xff))
          (λ h₁.
            and_then (make_cookie_single_line values h₁)
              (λ h₂. write_downstream values h₂ listen_port tls real_ip original_uri host))))

unfoldable pub add_forwarding_header :
    IpText
    → HeaderValues
    → HeaderMap
    → SocketAddr
    → SocketAddr
    → Bool
    → Bytes
    → Option Bytes
    → List IpNet
    → Option HeaderMap
unfolding forwarding_view write_view
add_forwarding_header text values headers client_addr listen_addr tls original_uri host trusted =
    let peer_ip = canonicalize_ip (to_canonical client_addr).ip in
    write_view text values headers (forwarding_view text values headers peer_ip tls host trusted)
      listen_addr.port tls original_uri host
