-- ===== src/ForwardedEntry/XForwardedFor.antt =====
-- The `X-Forwarded-For` text of a chain, and its first element.
use rust_rpxy.Common.{
  false, ℕ, suc, ◌≡◌, refl, sym, ap, ◌∙◌, Option, none, some, List, [], ◌∷◌, ◌++◌, arith, length,
  take, and_then, Bytes, bytes, append_assoc, append-nil, if◌then◌else◌, ◌==◌,
}
use rust_rpxy.Net.{IpAddr, v4, v6}
use rust_rpxy.ForwardedNode.{IpText, ForwardedEntry}
use rust_rpxy.ForwardedEntry.{push_ipv4, push_ip_addr, xff_from, xff_csv_from_chain}

abbrev ips_cons : IpAddr → Option (List IpAddr) → Option (List IpAddr)
ips_cons addr none = none
ips_cons addr (some addrs) = some (addr ∷ addrs)

abbrev ips_from : Option IpAddr → Option (List IpAddr) → Option (List IpAddr)
ips_from none rest = none
ips_from (some addr) rest = ips_cons addr rest

-- The addresses of the hops, if each hop is one.
abbrev pub ips_of : List ForwardedEntry → Option (List IpAddr)
ips_of [] = some []
ips_of (entry ∷ chain) = ips_from entry.for_node.ip (ips_of chain)

abbrev pub csv_rest : IpText → List IpAddr → Bytes
csv_rest text [] = []
csv_rest text (addr ∷ addrs) = bytes ", " ++ (push_ip_addr text [] addr ++ csv_rest text addrs)

-- The text of a chain of addresses with the length of the first one's text; no chain is empty.
abbrev pub csv_contract : IpText → Option (List IpAddr) → Option (Bytes × ℕ)
csv_contract text none = none
csv_contract text (some []) = none
csv_contract text (some (addr ∷ addrs)) =
    some (push_ip_addr text [] addr ++ csv_rest text addrs, length (push_ip_addr text [] addr))

push_ipv4-append : (out : Bytes) (a : ℕ) → push_ipv4 out a ≡ out ++ push_ipv4 [] a
unfolding push_ipv4
push_ipv4-append out a = simp append_assoc

push-append :
    (text : IpText) (out : Bytes) (addr : IpAddr)
    → push_ip_addr text out addr ≡ out ++ push_ip_addr text [] addr
unfolding push_ip_addr
push-append text out (v4 a) = push_ipv4-append out a
push-append text out (v6 a) = refl

abbrev rest_contract : IpText → Bytes → ℕ → Option (List IpAddr) → Option (Bytes × ℕ)
rest_contract text out first_len none = none
rest_contract text out first_len (some addrs) = some (out ++ csv_rest text addrs, first_len)

rest_cons :
    (text : IpText) (out : Bytes) (first_len : ℕ) (addr : IpAddr) (o : Option (List IpAddr))
    → rest_contract text (push_ip_addr text (out ++ bytes ", ") addr) first_len o
      ≡ rest_contract text out first_len (ips_cons addr o)
rest_cons text out first_len addr none = refl
rest_cons text out first_len addr (some addrs) =
    ap (λ s. some (s, first_len))
      (ap (λ s. s ++ csv_rest text addrs) (push-append text (out ++ bytes ", ") addr)
        ∙ simp append_assoc)

not_first : (idx : ℕ) → (suc idx == 0) ≡ false
not_first idx = ground arith

xff_from-rest :
    (text : IpText) (idx : ℕ) (out : Bytes) (first_len : ℕ) (chain : List ForwardedEntry)
    → xff_from text (suc idx) out first_len chain ≡ rest_contract text out first_len (ips_of chain)
unfolding xff_from
xff_from-rest text idx out first_len [] = ap (λ s. some (s, first_len)) (sym (append-nil out))
xff_from-rest text idx out first_len (entry ∷ chain) =
    hop entry.for_node.ip (λ out'. xff_from-rest text (suc idx) out' first_len chain)
  where
    hop :
        (o : Option IpAddr)
        → ((out' : Bytes)
            → xff_from text (suc (suc idx)) out' first_len chain
              ≡ rest_contract text out' first_len (ips_of chain))
        → and_then o (λ addr.
          let out' = push_ip_addr text (if suc idx == 0 then out else out ++ bytes ", ") addr in
          xff_from text
            (suc (suc idx))
            out'
            (if suc idx == 0 then length out' else first_len)
            chain)
          ≡ rest_contract text out first_len (ips_from o (ips_of chain))
    hop none rest = refl
    hop (some addr) rest = rw (not_first idx) (
        rest (push_ip_addr text (out ++ bytes ", ") addr)
        ∙ rest_cons text out first_len addr (ips_of chain))

-- `xff_csv_from_chain` answers exactly for a non-empty chain of addresses, with their texts separated
-- by commas and the length of the first text.
pub xff_csv_from_chain_lem :
    (text : IpText) (chain : List ForwardedEntry)
    → xff_csv_from_chain text chain ≡ csv_contract text (ips_of chain)
unfolding xff_csv_from_chain xff_from
xff_csv_from_chain_lem text [] = refl
xff_csv_from_chain_lem text (entry ∷ chain) = hop entry.for_node.ip
  where
    after :
        (addr : IpAddr) (o : Option (List IpAddr))
        → rest_contract text (push_ip_addr text [] addr) (length (push_ip_addr text [] addr)) o
          ≡ csv_contract text (ips_cons addr o)
    after addr none = refl
    after addr (some addrs) = refl

    hop :
        (o : Option IpAddr)
        → and_then o (λ addr.
          let out' = push_ip_addr text [] addr in xff_from text 1 out' (length out') chain)
          ≡ csv_contract text (ips_from o (ips_of chain))
    hop none = refl
    hop (some addr) =
        xff_from-rest text 0 (push_ip_addr text [] addr) (length (push_ip_addr text [] addr)) chain
        ∙ after addr (ips_of chain)

pub take-append : (s t : Bytes) → take (length s) (s ++ t) ≡ s
take-append [] t = refl
take-append (c ∷ s) t = ap (◌∷◌ c) (take-append s t)
