-- ===== src/OutgoingHeaders/Addresses.antt =====
-- The addresses that `X-Forwarded-For` and `X-Real-IP` tell the upstream.
use rust_rpxy.Common.{
  ◌≡◌, ◌⊎◌, inl, inr, subst, refl, sym, ap, ◌∙◌, Bool, true, Option, none, some, List, [], ◌∷◌,
  ◌++◌, length, take, Bytes, append-nil,
}
use rust_rpxy.Net.{IpAddr, SocketAddr, to_canonical, canonicalize_ip}
use rust_rpxy.HeaderMap.{HeaderMap, HeaderValues}
use rust_rpxy.ForwardedNode.{IpText, ForwardedEntry}
use rust_rpxy.ForwardedEntry.{push_ip_addr}
use rust_rpxy.ForwardedEntry.XForwardedFor.{
  ips_of, csv_rest, csv_contract, xff_csv_from_chain_lem, take-append,
}
use rust_rpxy.Forwarding.{
  IpNet, x_forwarded_for, build_peer_forwarded_entry, normalize_forwarding_chain,
}
use rust_rpxy.Forwarding.Normalized.{EndsIn, tail_trusted, normalize-tail_trusted}
use rust_rpxy.OutgoingHeaders.{x_real_ip, View, view_of, forwarding_view, add_forwarding_header}
use rust_rpxy.OutgoingHeaders.Lines.{write_view-Lines}

-- The chain is the normalized one, or the peer alone when that has a hop that is no address.
abbrev pub TakenFrom : List ForwardedEntry → ForwardedEntry → List ForwardedEntry → Type 0
TakenFrom normalized peer chain =
    (chain ≡ normalized)
    ⊎ ((ips_of normalized ≡ none) ⊎ (ips_of normalized ≡ some [])) × (chain ≡ peer ∷ [])

-- The text is that of the chain's addresses, and its first element that of the first one; the chain
-- ends in the peer, and its hops but the first are trusted.
record Shown (text : IpText) (normalized : List ForwardedEntry) (peer : ForwardedEntry)
    (trusted : List IpNet) (view : View) : Type 0 where
  taken_from : TakenFrom normalized peer view.chain
  first_ip : IpAddr
  later_ips : List IpAddr
  addresses : ips_of view.chain ≡ some (first_ip ∷ later_ips)
  xff_text : view.xff_csv ≡ push_ip_addr text [] first_ip ++ csv_rest text later_ips
  real_ip : take view.xff_first_len view.xff_csv ≡ push_ip_addr text [] first_ip
  last_hop : EndsIn view.chain peer
  later_hops : tail_trusted view.chain trusted ≡ true

module _ (text : IpText) (peer_ip : IpAddr) (tls : Bool) (host : Option Bytes)
    (trusted : List IpNet) where
  abbrev peer : ForwardedEntry
  peer = build_peer_forwarded_entry peer_ip tls host

  take-whole : (s : Bytes) → take (length s) s ≡ s
  take-whole s = ap (take (length s)) (sym (append-nil s)) ∙ take-append s []

  peer-Shown :
      (chain : List ForwardedEntry)
      → (ips_of chain ≡ none) ⊎ (ips_of chain ≡ some [])
      → Shown text chain peer trusted (view_of text peer_ip peer chain none)
  unfolding view_of build_peer_forwarded_entry
  peer-Shown chain n = record {
    taken_from = inr (n, refl);
    first_ip = peer_ip;
    later_ips = [];
    addresses = refl;
    xff_text = sym (append-nil (push_ip_addr text [] peer_ip));
    real_ip = take-whole (push_ip_addr text [] peer_ip);
    last_hop = refl;
    later_hops = refl;
  }

  chain-Shown :
      (chain : List ForwardedEntry) (ips : Option (List IpAddr))
      → ips_of chain ≡ ips
      → EndsIn chain peer × (tail_trusted chain trusted ≡ true)
      → Shown text chain peer trusted (view_of text peer_ip peer chain (csv_contract text ips))
  unfolding view_of
  chain-Shown chain none e h = peer-Shown chain (inl e)
  chain-Shown chain (some []) e h = peer-Shown chain (inr e)
  chain-Shown chain (some (addr ∷ addrs)) e h = record {
    taken_from = inl refl;
    first_ip = addr;
    later_ips = addrs;
    addresses = e;
    xff_text = refl;
    real_ip = take-append (push_ip_addr text [] addr) (csv_rest text addrs);
    last_hop = h.0;
    later_hops = h.1;
  }

forwarding_view-Shown :
    (text : IpText) (values : HeaderValues) (headers : HeaderMap) (peer_ip : IpAddr) (tls : Bool)
    (host : Option Bytes) (trusted : List IpNet)
    → Shown text
        (normalize_forwarding_chain text values headers peer_ip tls host trusted)
        (build_peer_forwarded_entry peer_ip tls host)
        trusted
        (forwarding_view text values headers peer_ip tls host trusted)
unfolding forwarding_view
forwarding_view-Shown text values headers peer_ip tls host trusted =
    let chain = normalize_forwarding_chain text values headers peer_ip tls host trusted in
    rw (xff_csv_from_chain_lem text chain) (
      chain-Shown text peer_ip tls host trusted chain (ips_of chain) refl
        (normalize-tail_trusted text values headers peer_ip tls host trusted))

-- The lines of the two headers after the call, and the chain that they are written from.
pub record Told (text : IpText) (values : HeaderValues) (normalized : List ForwardedEntry)
    (peer : ForwardedEntry) (trusted : List IpNet) (after : HeaderMap) : Type 0 where
  chain : List ForwardedEntry
  first_ip : IpAddr
  later_ips : List IpAddr
  xff : Bytes
  real_ip : Bytes
  taken_from : TakenFrom normalized peer chain
  addresses : ips_of chain ≡ some (first_ip ∷ later_ips)
  last_hop : EndsIn chain peer
  later_hops : tail_trusted chain trusted ≡ true
  xff_value :
      values.from_bytes (push_ip_addr text [] first_ip ++ csv_rest text later_ips) ≡ some xff
  xff_lines : after x_forwarded_for ≡ xff ∷ []
  real_ip_value : values.from_str (push_ip_addr text [] first_ip) ≡ some real_ip
  real_ip_lines : after x_real_ip ≡ real_ip ∷ []

-- Whatever the incoming headers say, after `add_forwarding_header` the request has one line of
-- `X-Forwarded-For` and one of `X-Real-IP`: the first lists the addresses of a chain that ends in the
-- peer and whose hops but the first are trusted, and the second is the first of them. The chain is the
-- normalized one, or the peer alone when a hop of that is no address.
pub add_forwarding_header-Told :
    (text : IpText) (values : HeaderValues) (headers : HeaderMap)
    (client_addr listen_addr : SocketAddr) (tls : Bool) (uri : Bytes) (host : Option Bytes)
    (trusted : List IpNet) (after : HeaderMap)
    → add_forwarding_header text values headers client_addr listen_addr tls uri host trusted
      ≡ some after
    → Told text values
        (normalize_forwarding_chain text values headers
          (canonicalize_ip (to_canonical client_addr).ip)
          tls
          host
          trusted)
        (build_peer_forwarded_entry (canonicalize_ip (to_canonical client_addr).ip) tls host)
        trusted
        after
unfolding add_forwarding_header
add_forwarding_header-Told text values headers client_addr listen_addr tls uri host trusted after
      e =
    let peer_ip = canonicalize_ip (to_canonical client_addr).ip in
    let view = forwarding_view text values headers peer_ip tls host trusted in
    let s = forwarding_view-Shown text values headers peer_ip tls host trusted in
    let l = write_view-Lines text values headers view listen_addr.port tls uri host after e in
    record {
      chain = view.chain;
      first_ip = s.first_ip;
      later_ips = s.later_ips;
      xff = l.xff;
      real_ip = l.real_ip;
      taken_from = s.taken_from;
      addresses = s.addresses;
      last_hop = s.last_hop;
      later_hops = s.later_hops;
      xff_value = subst (λ t. values.from_bytes t ≡ some l.xff) s.xff_text l.xff_value;
      xff_lines = l.xff_lines;
      real_ip_value = subst (λ t. values.from_str t ≡ some l.real_ip) s.real_ip l.real_ip_value;
      real_ip_lines = l.real_ip_lines;
    }
