-- ===== src/TrustedProxies/Resolution.antt =====
-- The networks that the entries of `trusted_forwarded_proxies` resolve to.
use rust_rpxy.Common.{
  ◌≡◌, refl, ap, sym, ◌∙◌, subst, Bool, true, false, not, ◌&&◌, ◌||◌, Option, none, some, List, [],
  ◌∷◌, ◌++◌, any, traverse, bind_some, some_inj, Bytes, and-intro, and-elim, Bool-cases, arith, inl,
  inr,
}
use rust_rpxy.TrustedProxies.{
  BuiltinTrustedProxyAlias, IpNets, parse_alias, TrustedProxyEntry, cidr, alias, ResolutionReport,
  entry_or, parse_entry, parse_alias_cidrs, push_new, push_all, add_entry, resolve_from,
  resolve_trusted_proxy_entries,
}

none_of : {a b : Bool} → a || b ≡ false → (a ≡ false) × (b ≡ false)
none_of h = ground arith

or_false : (a : Bool) → a ≡ a || false
or_false true = refl
or_false false = refl

or_assoc : (a b c : Bool) → (a || b) || c ≡ a || (b || c)
or_assoc true b c = refl
or_assoc false b c = refl

with_false : (a : Bool) → not a ≡ true → not (a || false) ≡ true
with_false a h = ground arith

module _ {N : Type 0} (nets : IpNets N) where
  -- The equality of networks.
  pub record IsEquality : Type 0 where
    pub reflexive : (a : N) → nets.net_eq a a ≡ true
    pub sound : (a b : N) → nets.net_eq a b ≡ true → a ≡ b

  abbrev pub listed : N → List N → Bool
  listed n cidrs = any (λ m. nets.net_eq n m) cidrs

  abbrev is_net : N → Option N → Bool
  is_net n none = false
  is_net n (some m) = nets.net_eq n m

  abbrev names_of : N → Bytes → Option BuiltinTrustedProxyAlias → Bool
  names_of n raw none = is_net n (nets.parse_net raw)
  names_of n raw (some a) = any (λ s. is_net n (nets.parse_net s)) (nets.cidr_strings a)

  -- An entry names a network, or an alias in whose table the network stands.
  abbrev pub names : N → Bytes → Bool
  names n raw = names_of n raw (parse_alias raw)

  abbrev pub distinct : List N → Bool
  distinct [] = true
  distinct (n ∷ cidrs) = not (listed n cidrs) && distinct cidrs

  distinct_if : (cidrs : List N) → (N → distinct cidrs ≡ true) → distinct cidrs ≡ true
  distinct_if [] h = refl
  distinct_if (n ∷ cidrs) h = h n

  any-append : (f : N → Bool) (xs ys : List N) → any f (xs ++ ys) ≡ any f xs || any f ys
  any-append f [] ys = refl
  any-append f (x ∷ xs) ys = ground (arith, any-append f xs ys)

  traverse-any :
      (n : N) (ss : List Bytes) (ms : List N)
      → traverse nets.parse_net ss ≡ some ms
      → listed n ms ≡ any (λ s. is_net n (nets.parse_net s)) ss
  traverse-any n [] ms e = subst (λ z. listed n z ≡ false) (some_inj e) refl
  traverse-any n (s ∷ ss) ms e =
      let (m, p, e1) = bind_some (nets.parse_net s) _ ms e in
      let (rest, q, e2) = bind_some (traverse nets.parse_net ss) _ ms e1 in
      subst (λ z. listed n z ≡ any (λ s. is_net n (nets.parse_net s)) (s ∷ ss)) (some_inj e2)
        (subst
          (λ o.
            nets.net_eq n m || listed n rest
            ≡ is_net n o || any (λ s. is_net n (nets.parse_net s)) ss)
          (sym p) (ap (λ b. nets.net_eq n m || b) (traverse-any n ss rest q)))

  module _ (eq : IsEquality) where
    seen-listed :
        (n m : N) (cidrs : List N)
        → listed m cidrs ≡ true
        → nets.net_eq n m ≡ true
        → listed n cidrs ≡ true
    seen-listed n m cidrs s e = subst (λ z. listed z cidrs ≡ true) (sym (eq.sound n m e)) s

    push_new-listed :
        (n m : N) (cidrs : List N)
        → listed n (push_new nets cidrs m) ≡ listed n cidrs || nets.net_eq n m
    push_new-listed n m cidrs = elim (Bool-cases (listed m cidrs)) [
      | inl s ↦ rw s (absorbed (listed n cidrs) (nets.net_eq n m) (seen-listed n m cidrs s))
      | inr s ↦ rw (s, any-append (λ z. nets.net_eq n z) cidrs (m ∷ [])) (ground arith)
    ]
      where
        absorbed : (a b : Bool) → (b ≡ true → a ≡ true) → a ≡ a || b
        absorbed true b h = refl
        absorbed false true h = h refl
        absorbed false false h = refl

    symmetric : (n m : N) → nets.net_eq n m ≡ true → nets.net_eq m n ≡ true
    symmetric n m e = subst (λ z. nets.net_eq z n ≡ true) (eq.sound n m e) (eq.reflexive n)

    apart : (n m : N) → nets.net_eq m n ≡ false → nets.net_eq n m ≡ false
    apart n m h = elim (Bool-cases (nets.net_eq n m)) [
      | inl e ↦ let q = symmetric n m e in cc
      | inr e ↦ e
    ]

    still_unseen :
        (n m : N) (cidrs : List N)
        → not (listed n cidrs) ≡ true
        → nets.net_eq n m ≡ false
        → not (listed n (cidrs ++ m ∷ [])) ≡ true
    still_unseen n m cidrs u e =
        rw (any-append (λ z. nets.net_eq n z) cidrs (m ∷ []), e) (with_false (listed n cidrs) u)

    append-distinct :
        (m : N) (cidrs : List N)
        → distinct cidrs ≡ true
        → listed m cidrs ≡ false
        → distinct (cidrs ++ m ∷ []) ≡ true
    append-distinct m [] d s = refl
    append-distinct m (n ∷ cidrs) d s =
        let (unseen, rest) = and-elim d in
        let (head, tail) = none_of s in
        and-intro (still_unseen n m cidrs unseen (apart n m head))
          (append-distinct m cidrs rest tail)

    push_new-distinct :
        (m : N) (cidrs : List N) → distinct cidrs ≡ true → distinct (push_new nets cidrs m) ≡ true
    push_new-distinct m cidrs d = elim (Bool-cases (listed m cidrs)) [
      | inl s ↦ rw s d
      | inr s ↦ rw s (append-distinct m cidrs d s)
    ]

    push_all-listed :
        (n : N) (cidrs ms : List N)
        → listed n (push_all nets cidrs ms) ≡ listed n cidrs || listed n ms
    push_all-listed n cidrs [] = ground arith
    push_all-listed n cidrs (m ∷ ms) =
        ground (arith, push_all-listed n (push_new nets cidrs m) ms, push_new-listed n m cidrs)

    push_all-distinct :
        (cidrs ms : List N) → distinct cidrs ≡ true → distinct (push_all nets cidrs ms) ≡ true
    push_all-distinct cidrs [] d = d
    push_all-distinct cidrs (m ∷ ms) d =
        push_all-distinct (push_new nets cidrs m) ms (push_new-distinct m cidrs d)

    -- What a report lists after an entry.
    record Added (n : N) (report : ResolutionReport N) (named : Bool) (r : ResolutionReport N)
        : Type 0 where
      lists : listed n r.cidrs ≡ listed n report.cidrs || named
      apart : distinct report.cidrs ≡ true → distinct r.cidrs ≡ true

    cidr-Added :
        (n m : N) (report r : ResolutionReport N)
        → add_entry nets report (cidr m) ≡ some r
        → Added n report (nets.net_eq n m) r
    unfolding add_entry
    cidr-Added n m report r f = subst (Added n report (nets.net_eq n m)) (some_inj f) (record {
      lists = push_new-listed n m report.cidrs;
      apart = push_new-distinct m report.cidrs;
    })

    alias-Added :
        (n : N) (a : BuiltinTrustedProxyAlias) (report r : ResolutionReport N)
        → add_entry nets report (alias a) ≡ some r
        → Added n report (any (λ s. is_net n (nets.parse_net s)) (nets.cidr_strings a)) r
    unfolding add_entry parse_alias_cidrs
    alias-Added n a report r f =
        let (ms, t, q) = bind_some (traverse nets.parse_net (nets.cidr_strings a)) _ r f in
        let named = any (λ s. is_net n (nets.parse_net s)) (nets.cidr_strings a) in
        subst (Added n report named) (some_inj q) (record {
          lists =
              subst (λ b. listed n (push_all nets report.cidrs ms) ≡ listed n report.cidrs || b)
                (traverse-any n (nets.cidr_strings a) ms t) (push_all-listed n report.cidrs ms);
          apart = push_all-distinct report.cidrs ms;
        })

    entry-Added :
        (n : N) (report : ResolutionReport N) (raw : Bytes) (o : Option BuiltinTrustedProxyAlias)
        (entry : TrustedProxyEntry N) (r : ResolutionReport N)
        → entry_or nets raw o ≡ some entry
        → add_entry nets report entry ≡ some r
        → Added n report (names_of n raw o) r
    unfolding entry_or
    entry-Added n report raw (some a) entry r e f =
        alias-Added n a report r
          (subst (λ z. add_entry nets report z ≡ some r) (sym (some_inj e)) f)
    entry-Added n report raw none entry r e f =
        let (m, p, q) = bind_some (nets.parse_net raw) _ entry e in
        rw p (
          cidr-Added n m report r
            (subst (λ z. add_entry nets report z ≡ some r) (sym (some_inj q)) f))

    resolve_from-Added :
        (n : N) (entries : List Bytes) (report r : ResolutionReport N)
        → resolve_from nets report entries ≡ some r
        → Added n report (any (names n) entries) r
    unfolding resolve_from parse_entry
    resolve_from-Added n [] report r e =
        subst (Added n report false) (some_inj e)
          (record { lists = or_false (listed n report.cidrs); apart = λ d. d })
    resolve_from-Added n (raw ∷ entries) report r e =
        let (entry, p, e1) = bind_some (entry_or nets raw (parse_alias raw)) _ r e in
        let (report', q, e2) = bind_some (add_entry nets report entry) _ r e1 in
        let a = entry-Added n report raw (parse_alias raw) entry report' p q in
        let b = resolve_from-Added n entries report' r e2 in
        record {
          lists =
              b.lists
              ∙ ap (λ x. x || any (names n) entries) a.lists
              ∙ or_assoc (listed n report.cidrs) (names n raw) (any (names n) entries);
          apart = λ d. b.apart (a.apart d);
        }

    -- With an equality of networks, the networks that the entries resolve to are distinct, and are those
    -- that an entry names, itself or by an alias.
    pub resolve-distinct :
        (entries : List Bytes) (r : ResolutionReport N)
        → resolve_trusted_proxy_entries nets entries ≡ some r
        → (distinct r.cidrs ≡ true) × ((n : N) → listed n r.cidrs ≡ any (names n) entries)
    unfolding resolve_trusted_proxy_entries
    resolve-distinct entries r e =
        let a = λ (n : N).
          resolve_from-Added n entries (record { cidrs = []; expanded_aliases = [] }) r e in
        (distinct_if r.cidrs (λ n. (a n).apart refl), λ n. (a n).lists)
