-- ===== src/Net.antt =====
-- Addresses of std::net as numbers, and rpxy-lib/src/message_handler/canonical_address.rs.
pub mod Canonical
use rust_rpxy.Common.{
  ℕ, ◌+◌, ◌*◌, ◌/◌, ◌%◌, ◌≡◌, ◌↔◌, refl, Bool, true, false, ◌&&◌, Option, none, some, arith,
  if◌then◌else◌, ◌==◌, ltb,
}

-- A `u32` for IPv4, a `u128` for IPv6.
pub data IpAddr : Type 0 where
  v4 v6 : ℕ → IpAddr

pub record SocketAddr : Type 0 where
  pub ip : IpAddr
  pub port : ℕ

abbrev pub ip_eq : IpAddr → IpAddr → Bool
ip_eq (v4 a) (v4 b) = a == b
ip_eq (v6 a) (v6 b) = a == b
ip_eq _ _ = false

pub ip_eq_iff : (a b : IpAddr) → (ip_eq a b ≡ true) ↔ (a ≡ b)
ip_eq_iff (v4 a) (v4 b) = ground arith
ip_eq_iff (v6 a) (v6 b) = ground arith
ip_eq_iff (v4 a) (v6 b) = ground arith
ip_eq_iff (v6 a) (v4 b) = ground arith

pub ip_eq_refl : (a : IpAddr) → ip_eq a a ≡ true
ip_eq_refl a = (ip_eq_iff a a).1 refl

-- `Ipv6Addr::to_ipv4_mapped`: the addresses ::ffff:0:0/96.
unfoldable pub to_ipv4_mapped : ℕ → Option ℕ
to_ipv4_mapped a = if a / 4294967296 == 65535 then some (a % 4294967296) else none

-- `Ipv6Addr::to_ipv4`: the mapped addresses and the compatible ones, ::/96.
unfoldable pub to_ipv4 : ℕ → Option ℕ
to_ipv4 a =
    if a / 4294967296 == 65535
    then some (a % 4294967296)
    else (if a / 4294967296 == 0 then some (a % 4294967296) else none)

canonical_v6 : SocketAddr → ℕ → Option ℕ → SocketAddr
canonical_v6 self a none = self
canonical_v6 self a (some mapped) =
    if mapped == 1 then self else record { ip = v4 mapped; port = self.port }

canonical_ip : SocketAddr → IpAddr → SocketAddr
canonical_ip self (v4 _) = self
canonical_ip self (v6 a) = canonical_v6 self a (to_ipv4 a)

-- `impl ToCanonical for SocketAddr`.
unfoldable pub to_canonical : SocketAddr → SocketAddr
unfolding canonical_ip canonical_v6 to_ipv4
to_canonical self = canonical_ip self self.ip

-- `canonicalize_ip` of header_ops/forwarding.rs.
unfoldable pub canonicalize_ip : IpAddr → IpAddr
unfolding to_canonical
canonicalize_ip ip = (to_canonical (record { ip = ip; port = 0 })).ip
