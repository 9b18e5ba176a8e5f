-- ===== src/Config/Sockets.antt =====
-- `build_listen_sockets` of rpxy-bin/src/config/toml.rs. A `HashSet` of addresses is the list of its
-- members in some order; the parsers of std::net are parameters.
use rust_rpxy.Common.{
  ℕ, Bool, true, false, not, ◌||◌, Option, none, some, List, [], ◌∷◌, ◌++◌, if◌then◌else◌, ◌==◌,
  ltb, length, any, map, traverse, ensure, ◌>>=◌, ◌>>◌, Bytes,
}
use rust_rpxy.Net.{IpAddr, v4, v6, SocketAddr}
use rust_rpxy.HeaderText.{strip_prefix, strip_suffix}

-- `Ipv4Addr::from_str` and `Ipv6Addr::from_str`.
pub record AddressParsers : Type 0 where
  pub parse_v4 : Bytes → Option ℕ
  pub parse_v6 : Bytes → Option ℕ

pub data OneOrMany : Type 0 where
  one : Bytes → OneOrMany
  many : List Bytes → OneOrMany

abbrev pub into_vec : OneOrMany → List Bytes
into_vec (one s) = s ∷ []
into_vec (many v) = v

-- A set, with the first of equal members.
abbrev pub insert_new : ℕ → List ℕ → List ℕ
insert_new a set = if any (λ b. a == b) set then set else a ∷ set

abbrev pub to_set : List ℕ → List ℕ
to_set [] = []
to_set (a ∷ rest) = insert_new a (to_set rest)

-- The wildcard address 0 stands alone.
abbrev pub no_mixed_wildcard : List ℕ → Bool
no_mixed_wildcard ips = not (ltb 1 (length ips)) || not (any (λ a. a == 0) ips)

abbrev pub non_empty : List Bytes → Bool
non_empty [] = false
non_empty (a ∷ addrs) = true

abbrev stripped_or : Bytes → Option Bytes → Bytes
stripped_or addr none = addr
stripped_or addr (some s) = s

strip_brackets : Bytes → Bytes
strip_brackets addr = stripped_or addr (strip_prefix 91 addr >>= strip_suffix 93)

addresses : (Bytes → Option ℕ) → List Bytes → Option (List ℕ)
addresses parse addrs = do
  ensure (non_empty addrs)
  parsed ← traverse parse addrs
  let ips = to_set parsed
  ensure (no_mixed_wildcard ips)
  some ips

v4_addresses : AddressParsers → Option (List Bytes) → Option (List ℕ)
unfolding addresses
v4_addresses parsers none = some (0 ∷ [])
v4_addresses parsers (some addrs) = addresses parsers.parse_v4 addrs

v6_addresses : AddressParsers → Option (List Bytes) → Bool → Option (List ℕ)
unfolding addresses strip_brackets
v6_addresses parsers none listen_ipv6 = some (if listen_ipv6 then 0 ∷ [] else [])
v6_addresses parsers (some addrs) listen_ipv6 =
    addresses (λ addr. parsers.parse_v6 (strip_brackets addr)) addrs

abbrev port_list : Option ℕ → List ℕ
port_list none = []
port_list (some p) = p ∷ []

abbrev pub sockets_of : IpAddr → List ℕ → List SocketAddr
sockets_of ip [] = []
sockets_of ip (p ∷ ports) = record { ip = ip; port = p } ∷ sockets_of ip ports

abbrev pub combine : List IpAddr → List ℕ → List SocketAddr
combine [] ports = []
combine (ip ∷ ips) ports = sockets_of ip ports ++ combine ips ports

unfoldable pub build_listen_sockets :
    AddressParsers
    → Option (List Bytes)
    → Option (List Bytes)
    → Bool
    → Option ℕ
    → Option ℕ
    → Option (List SocketAddr)
unfolding v4_addresses v6_addresses
build_listen_sockets parsers v4_addrs v6_addrs listen_ipv6 http_port https_port = do
  ips4 ← v4_addresses parsers v4_addrs
  ips6 ← v6_addresses parsers v6_addrs listen_ipv6
  some (combine (map v4 ips4 ++ map v6 ips6) (port_list http_port ++ port_list https_port))
