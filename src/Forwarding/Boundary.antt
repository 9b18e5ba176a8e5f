-- ===== src/Forwarding/Boundary.antt =====
-- Where `reduce_trusted_proxy_chain` cuts the chain.
use rust_rpxy.Common.{
  ℕ, suc, ◌≡◌, refl, sym, ap, ◌∙◌, inl, inr, Bool, true, false, some, List, [], ◌∷◌, ◌++◌, arith,
  length, get_elem?, drop, all, Bool-cases, length-append, if◌then◌else◌,
}
use rust_rpxy.ForwardedNode.{ForwardedEntry}
use rust_rpxy.Forwarding.{
  IpNet, entry_is_trusted_proxy, trusted_at, boundary_from, drain_before,
  reduce_trusted_proxy_chain,
}

abbrev pub all_trusted : List ForwardedEntry → List IpNet → Bool
all_trusted chain trusted = all (λ e. entry_is_trusted_proxy e trusted) chain

module _ {ℓ} {A : Type ℓ} where
  get-append : (xs ys : List A) → get_elem? (xs ++ ys) (length xs) ≡ get_elem? ys 0
  get-append [] ys = refl
  get-append (x ∷ xs) ys = get-append xs ys

  drop-append : (xs ys : List A) → drop (length xs) (xs ++ ys) ≡ ys
  drop-append [] ys = refl
  drop-append (x ∷ xs) ys = drop-append xs ys

  length-snoc : (xs : List A) (x : A) → length (xs ++ x ∷ []) ≡ suc (length xs)
  length-snoc xs x = omega (arith, length-append xs (x ∷ []))

  snoc-append : (xs : List A) (x : A) (ys : List A) → (xs ++ x ∷ []) ++ ys ≡ xs ++ x ∷ ys
  snoc-append [] x ys = refl
  snoc-append (z ∷ xs) x ys = ap (◌∷◌ z) (snoc-append xs x ys)

-- One step of the scan, at an entry that is known.
scan-step :
    (chain : List ForwardedEntry) (trusted : List IpNet) (i : ℕ) (e : ForwardedEntry)
    → get_elem? chain i ≡ some e
    → entry_is_trusted_proxy e trusted ≡ true
    → boundary_from chain trusted (suc i) ≡ boundary_from chain trusted i
unfolding boundary_from trusted_at
scan-step chain trusted i e g t = rw (g, t) refl

scan-stop :
    (chain : List ForwardedEntry) (trusted : List IpNet) (i : ℕ) (e : ForwardedEntry)
    → get_elem? chain i ≡ some e
    → entry_is_trusted_proxy e trusted ≡ false
    → boundary_from chain trusted (suc i) ≡ suc i
unfolding boundary_from trusted_at
scan-stop chain trusted i e g t = rw (g, t) refl

-- The scan goes down through a trusted suffix.
scan-suffix :
    (p s : List ForwardedEntry) (trusted : List IpNet)
    → all_trusted s trusted ≡ true
    → boundary_from (p ++ s) trusted (length (p ++ s)) ≡ boundary_from (p ++ s) trusted (length p)
scan-suffix p [] trusted h =
    ap (boundary_from (p ++ []) trusted) (ground (arith, length-append p []))
scan-suffix p (e ∷ s) trusted h = rw (sym (snoc-append p e s)) (
    scan-suffix (p ++ e ∷ []) s trusted (ground arith)
    ∙ ap (boundary_from ((p ++ e ∷ []) ++ s) trusted) (length-snoc p e)
    ∙ scan-step ((p ++ e ∷ []) ++ s) trusted (length p) e
        (ap (λ c. get_elem? c (length p)) (snoc-append p e s) ∙ get-append p (e ∷ s))
        (ground arith))

scan-cut :
    (p : List ForwardedEntry) (e : ForwardedEntry) (s : List ForwardedEntry) (trusted : List IpNet)
    → entry_is_trusted_proxy e trusted ≡ false
    → all_trusted s trusted ≡ true
    → boundary_from (p ++ e ∷ s) trusted (length (p ++ e ∷ s)) ≡ suc (length p)
scan-cut p e s trusted u h = rw (sym (snoc-append p e s)) (
    scan-suffix (p ++ e ∷ []) s trusted h
    ∙ ap (boundary_from ((p ++ e ∷ []) ++ s) trusted) (length-snoc p e)
    ∙ scan-stop ((p ++ e ∷ []) ++ s) trusted (length p) e
        (ap (λ c. get_elem? c (length p)) (snoc-append p e s) ∙ get-append p (e ∷ s)) u)

pub reduce_trusted :
    (s : List ForwardedEntry) (trusted : List IpNet)
    → all_trusted s trusted ≡ true
    → reduce_trusted_proxy_chain s trusted ≡ s
unfolding reduce_trusted_proxy_chain drain_before boundary_from
reduce_trusted s trusted h = ap (drain_before s) (scan-suffix [] s trusted h)

-- After an untrusted hop that only trusted ones follow, `reduce_trusted_proxy_chain` keeps that hop
-- and those, whatever stands before it.
pub reduce_forged :
    (p : List ForwardedEntry) (e : ForwardedEntry) (s : List ForwardedEntry) (trusted : List IpNet)
    → entry_is_trusted_proxy e trusted ≡ false
    → all_trusted s trusted ≡ true
    → reduce_trusted_proxy_chain (p ++ e ∷ s) trusted ≡ e ∷ s
unfolding reduce_trusted_proxy_chain drain_before
reduce_forged p e s trusted u h =
    ap (drain_before (p ++ e ∷ s)) (scan-cut p e s trusted u h) ∙ drop-append p (e ∷ s)

-- The longest suffix of a chain in which every hop but the first is trusted.
abbrev pub trusted_suffix : List ForwardedEntry → List IpNet → List ForwardedEntry
trusted_suffix [] trusted = []
trusted_suffix (e ∷ chain) trusted =
    let rest = trusted_suffix chain trusted in if all_trusted chain trusted then e ∷ chain else rest

-- The last untrusted hop of a chain that has one.
record Cut (chain : List ForwardedEntry) (trusted : List IpNet) : Type 0 where
  before : List ForwardedEntry
  hop : ForwardedEntry
  after : List ForwardedEntry
  whole : chain ≡ before ++ hop ∷ after
  hop_untrusted : entry_is_trusted_proxy hop trusted ≡ false
  after_trusted : all_trusted after trusted ≡ true

find-Cut :
    (chain : List ForwardedEntry) (trusted : List IpNet)
    → all_trusted chain trusted ≡ false
    → Cut chain trusted
find-Cut [] trusted h = absurd (cc)
find-Cut (e ∷ s) trusted h = elim (Bool-cases (all_trusted s trusted)) [
  | inl t ↦ record {
    before = [];
    hop = e;
    after = s;
    whole = refl;
    hop_untrusted = ground arith;
    after_trusted = t;
  }
  | inr f ↦
      let c = find-Cut s trusted f in
      record {
        before = e ∷ c.before;
        hop = c.hop;
        after = c.after;
        whole = ap (◌∷◌ e) c.whole;
        hop_untrusted = c.hop_untrusted;
        after_trusted = c.after_trusted;
      }
]

reduce_skips :
    (e : ForwardedEntry) (s : List ForwardedEntry) (trusted : List IpNet)
    → Cut s trusted
    → reduce_trusted_proxy_chain (e ∷ s) trusted ≡ reduce_trusted_proxy_chain s trusted
reduce_skips e s trusted c = rw c.whole (
    reduce_forged (e ∷ c.before) c.hop c.after trusted c.hop_untrusted c.after_trusted
    ∙ sym (reduce_forged c.before c.hop c.after trusted c.hop_untrusted c.after_trusted))

reduce_keeps :
    (e : ForwardedEntry) (s : List ForwardedEntry) (trusted : List IpNet)
    → all_trusted s trusted ≡ true
    → reduce_trusted_proxy_chain (e ∷ s) trusted ≡ e ∷ s
reduce_keeps e s trusted h = elim (Bool-cases (entry_is_trusted_proxy e trusted)) [
  | inl t ↦ reduce_trusted (e ∷ s) trusted (ground arith)
  | inr u ↦ reduce_forged [] e s trusted u h
]

-- `reduce_trusted_proxy_chain` answers with the longest suffix of the chain in which every hop but
-- the first is trusted.
pub reduce_lem :
    (chain : List ForwardedEntry) (trusted : List IpNet)
    → reduce_trusted_proxy_chain chain trusted ≡ trusted_suffix chain trusted
reduce_lem [] trusted = reduce_trusted [] trusted refl
reduce_lem (e ∷ s) trusted = elim (Bool-cases (all_trusted s trusted)) [
  | inl h ↦ rw h (reduce_keeps e s trusted h)
  | inr h ↦ rw h (reduce_skips e s trusted (find-Cut s trusted h) ∙ reduce_lem s trusted)
]
