-- ===== src/Net/Canonical.antt =====
-- Canonical addresses: what `to_canonical` keeps, and when two peers become one.
use rust_rpxy.Common.{ℕ, ◌+◌, ◌≤◌, ◌<◌, ◌≡◌, ◌≢◌, ◌⊎◌, refl, arith}
use rust_rpxy.Net.{IpAddr, v4, v6, canonicalize_ip}

-- An address that needs no further normalisation: IPv4, or IPv6 outside the two IPv4 blocks, or one of
-- the two forms of 0.0.0.1, which stands for the IPv6 loopback.
abbrev pub IsCanonical : IpAddr → Type 0
IsCanonical (v4 a) = Unit
IsCanonical (v6 a) =
    (a ≡ 1)
    ⊎ ((a ≡ 281470681743361) ⊎ ((281474976710656 ≤ a) ⊎ ((4294967296 ≤ a) × (a < 281470681743360))))

canonicalize_ip-v6 : (a : ℕ) → IsCanonical (canonicalize_ip (v6 a))
unfolding canonicalize_ip
canonicalize_ip-v6 a = ground arith

pub canonicalize_ip-IsCanonical : (ip : IpAddr) → IsCanonical (canonicalize_ip ip)
unfolding canonicalize_ip
canonicalize_ip-IsCanonical (v4 a) = tt
canonicalize_ip-IsCanonical (v6 a) = canonicalize_ip-v6 a

pub canonicalize_ip_of_IsCanonical : (ip : IpAddr) → IsCanonical ip → canonicalize_ip ip ≡ ip
unfolding canonicalize_ip
canonicalize_ip_of_IsCanonical (v4 a) h = refl
canonicalize_ip_of_IsCanonical (v6 a) h = ground arith

pub canonicalize_ip-mapped :
    (a : ℕ) → a < 4294967296 → a ≢ 1 → canonicalize_ip (v6 (281470681743360 + a)) ≡ v4 a
unfolding canonicalize_ip
canonicalize_ip-mapped a h k = ground arith

-- Canonicalizing an address twice is canonicalizing it once.
canonicalize_ip_twice : (ip : IpAddr) → canonicalize_ip (canonicalize_ip ip) ≡ canonicalize_ip ip
canonicalize_ip_twice ip =
    canonicalize_ip_of_IsCanonical (canonicalize_ip ip) (canonicalize_ip-IsCanonical ip)
