-- ===== src/Forwarding/Normalized.antt =====
-- What `normalize_forwarding_chain` keeps of the incoming headers.
use rust_rpxy.Common.{
  ◌≡◌, refl, ap, ◌∙◌, inl, inr, Bool, true, false, Option, none, some, List, [], ◌∷◌, ◌++◌,
  append_assoc, arith, Bool-cases, Bytes,
}
use rust_rpxy.Net.{IpAddr}
use rust_rpxy.HeaderMap.{HeaderMap, HeaderValues}
use rust_rpxy.ForwardedNode.{IpText, ForwardedEntry}
use rust_rpxy.Forwarding.{
  IpNet, is_trusted_proxy, entry_is_trusted_proxy, ip_is_trusted, build_peer_forwarded_entry,
  reduce_trusted_proxy_chain, or_peer, append_peer, normalize_found, normalize_forwarding_chain,
  extract_forwarding_chain_from_headers,
}
use rust_rpxy.Forwarding.Boundary.{all_trusted, trusted_suffix, reduce_lem, reduce_forged}

abbrev pub tail_trusted : List ForwardedEntry → List IpNet → Bool
tail_trusted [] trusted = false
tail_trusted (e ∷ s) trusted = all_trusted s trusted

abbrev pub EndsIn : List ForwardedEntry → ForwardedEntry → Type 0
EndsIn [] peer = ⊥
EndsIn (e ∷ []) peer = e ≡ peer
EndsIn (e ∷ f ∷ s) peer = EndsIn (f ∷ s) peer

EndsIn-append : (s : List ForwardedEntry) (peer : ForwardedEntry) → EndsIn (s ++ peer ∷ []) peer
EndsIn-append [] peer = refl
EndsIn-append (e ∷ []) peer = refl
EndsIn-append (e ∷ f ∷ s) peer = EndsIn-append (f ∷ s) peer

-- A suffix of a chain that ends in the peer ends in it, and its tail is trusted.
suffix-EndsIn :
    (c : List ForwardedEntry) (peer : ForwardedEntry) (trusted : List IpNet)
    → EndsIn c peer
    → EndsIn (trusted_suffix c trusted) peer
      × (tail_trusted (trusted_suffix c trusted) trusted ≡ true)
suffix-EndsIn [] peer trusted h = elim h [ ]
suffix-EndsIn (e ∷ []) peer trusted h = (h, refl)
suffix-EndsIn (e ∷ f ∷ s) peer trusted h = elim (Bool-cases (all_trusted (f ∷ s) trusted)) [
  | inl t ↦ rw t (h, t)
  | inr u ↦ rw u (suffix-EndsIn (f ∷ s) peer trusted h)
]

or_peer-EndsIn :
    (c : List ForwardedEntry) (peer : ForwardedEntry) (trusted : List IpNet)
    → EndsIn c peer × (tail_trusted c trusted ≡ true)
    → EndsIn (or_peer peer c) peer × (tail_trusted (or_peer peer c) trusted ≡ true)
unfolding or_peer
or_peer-EndsIn [] peer trusted h = elim h.0 [ ]
or_peer-EndsIn (e ∷ s) peer trusted h = h

found-EndsIn :
    (peer : ForwardedEntry) (trusted : List IpNet) (found : Option (Option (List ForwardedEntry)))
    → EndsIn (normalize_found peer trusted found) peer
      × (tail_trusted (normalize_found peer trusted found) trusted ≡ true)
unfolding normalize_found append_peer
found-EndsIn peer trusted none = (refl, refl)
found-EndsIn peer trusted (some none) = (refl, refl)
found-EndsIn peer trusted (some (some [])) = (refl, refl)
found-EndsIn peer trusted (some (some (e ∷ es))) =
    or_peer-EndsIn (reduce_trusted_proxy_chain ((e ∷ es) ++ peer ∷ []) trusted) peer trusted (
      rw (reduce_lem ((e ∷ es) ++ peer ∷ []) trusted)
        (suffix-EndsIn ((e ∷ es) ++ peer ∷ []) peer trusted (EndsIn-append (e ∷ es) peer)))

-- Whatever the incoming headers say, the chain that `normalize_forwarding_chain` makes ends in the
-- entry of the immediate peer, and all its hops but the first are trusted.
pub normalize-tail_trusted :
    (text : IpText) (values : HeaderValues) (headers : HeaderMap) (peer_ip : IpAddr) (tls : Bool)
    (host : Option Bytes) (trusted : List IpNet)
    → EndsIn
        (normalize_forwarding_chain text values headers peer_ip tls host trusted)
        (build_peer_forwarded_entry peer_ip tls host)
      × (tail_trusted
            (normalize_forwarding_chain text values headers peer_ip tls host trusted)
            trusted
          ≡ true)
unfolding normalize_forwarding_chain
normalize-tail_trusted text values headers peer_ip tls host trusted =
    elim (Bool-cases (is_trusted_proxy peer_ip trusted)) [
      | inl t ↦ rw t (
          found-EndsIn (build_peer_forwarded_entry peer_ip tls host) trusted
            (extract_forwarding_chain_from_headers text values headers none))
      | inr u ↦ rw u (refl, refl)
    ]

or_peer-cons :
    (peer e : ForwardedEntry) (c s : List ForwardedEntry) → c ≡ e ∷ s → or_peer peer c ≡ e ∷ s
unfolding or_peer
or_peer-cons peer e c s h = ap (or_peer peer) h

all_trusted-snoc :
    (s : List ForwardedEntry) (peer : ForwardedEntry) (trusted : List IpNet)
    → all_trusted s trusted ≡ true
    → entry_is_trusted_proxy peer trusted ≡ true
    → all_trusted (s ++ peer ∷ []) trusted ≡ true
all_trusted-snoc [] peer trusted h t = ground arith
all_trusted-snoc (e ∷ s) peer trusted h t = ground (arith, all_trusted-snoc s peer trusted)

append_peer-forged :
    (p : List ForwardedEntry) (e : ForwardedEntry) (s : List ForwardedEntry) (peer : ForwardedEntry)
    (trusted : List IpNet)
    → entry_is_trusted_proxy e trusted ≡ false
    → all_trusted s trusted ≡ true
    → entry_is_trusted_proxy peer trusted ≡ true
    → append_peer peer trusted (p ++ e ∷ s) ≡ e ∷ s ++ peer ∷ []
unfolding append_peer
append_peer-forged [] e s peer trusted u h t =
    or_peer-cons peer e (reduce_trusted_proxy_chain (e ∷ s ++ peer ∷ []) trusted) (s ++ peer ∷ [])
      (reduce_forged [] e (s ++ peer ∷ []) trusted u (all_trusted-snoc s peer trusted h t))
append_peer-forged (x ∷ p) e s peer trusted u h t =
    or_peer-cons peer e (reduce_trusted_proxy_chain ((x ∷ p ++ e ∷ s) ++ peer ∷ []) trusted)
      (s ++ peer ∷ [])
      (ap (λ c. reduce_trusted_proxy_chain c trusted) (append_assoc (x ∷ p) (e ∷ s) (peer ∷ []))
        ∙ reduce_forged (x ∷ p) e (s ++ peer ∷ []) trusted u (all_trusted-snoc s peer trusted h t))

-- Behind a trusted peer, what the incoming chain says before its last untrusted hop does not count: the
-- chain is that hop, the trusted ones after it and the peer.
pub normalize_forged :
    (text : IpText) (values : HeaderValues) (headers : HeaderMap) (peer_ip : IpAddr) (tls : Bool)
    (host : Option Bytes) (trusted : List IpNet) (p : List ForwardedEntry) (e : ForwardedEntry)
    (s : List ForwardedEntry)
    → is_trusted_proxy peer_ip trusted ≡ true
    → extract_forwarding_chain_from_headers text values headers none ≡ some (some (p ++ e ∷ s))
    → entry_is_trusted_proxy e trusted ≡ false
    → all_trusted s trusted ≡ true
    → normalize_forwarding_chain text values headers peer_ip tls host trusted
      ≡ e ∷ s ++ build_peer_forwarded_entry peer_ip tls host ∷ []
unfolding normalize_forwarding_chain normalize_found build_peer_forwarded_entry
    entry_is_trusted_proxy ip_is_trusted
normalize_forged text values headers peer_ip tls host trusted p e s t found u h =
    rw (t, found)
      (append_peer-forged p e s (build_peer_forwarded_entry peer_ip tls host) trusted u h t)
