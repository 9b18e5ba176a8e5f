-- ===== src/Route/Longest.antt =====
-- The chosen route is the longest that matches on a segment boundary, in whatever order the map is read.
use rust_rpxy.Common.{
  ℕ, ◌≤◌, ◌<◌, ◌≡◌, ◌≢◌, ◌↔◌, ◌⊎◌, inl, inr, refl, sym, ◌∙◌, ap, subst, Bool, true, false, none,
  some, List, [], ◌∷◌, ◌++◌, arith, leb, length, get_elem?, Bytes, starts_with, drop,
  starts_with_iff, append-nil, Bool-cases,
}
use rust_rpxy.Route.{PathName, at_boundary, matches, longer, get_from, get}

-- A prefix is determined by its length.
starts_with_once :
    (s p q : Bytes) → starts_with s p ≡ true → starts_with s q ≡ true → length p ≡ length q → p ≡ q
starts_with_once s [] [] h k e = refl
starts_with_once s [] (y ∷ q) h k e = absurd (omega arith)
starts_with_once s (x ∷ p) [] h k e = absurd (omega arith)
starts_with_once [] (x ∷ p) (y ∷ q) h k e = absurd (cc)
starts_with_once (c ∷ s) (x ∷ p) (y ∷ q) h k e = ground (arith, starts_with_once s p q)

matches-starts_with : (path r : Bytes) → matches path r ≡ true → starts_with path r ≡ true
unfolding matches
matches-starts_with path r h = ground arith

clash : {b : Bool} → b ≡ true → b ≡ false → ⊥
clash p q = cc

module _ {V : Type 0} where
  abbrev pub In : PathName × V → List (PathName × V) → Type 0
  In e [] = ⊥
  In e (x ∷ xs) = (e ≡ x) ⊎ In e xs

  -- No matching route of the list is longer.
  abbrev pub NoneLonger : Bytes → ℕ → List (PathName × V) → Type 0
  NoneLonger path n [] = Unit
  NoneLonger path n ((r, v) ∷ es) = (matches path r ≡ true → length r ≤ n) × NoneLonger path n es

  abbrev pub NoneMatches : Bytes → List (PathName × V) → Type 0
  NoneMatches path [] = Unit
  NoneMatches path ((r, v) ∷ es) = (matches path r ≡ false) × NoneMatches path es

  -- The loop's answer, from a best entry so far.
  record Best (path : Bytes) (r₀ : PathName) (v₀ : V) (es : List (PathName × V)) : Type 0 where
    route : PathName
    value : V
    answer : get_from path (some (r₀, v₀)) es ≡ some (route, value)
    matched : matches path route ≡ true
    grown : length r₀ ≤ length route
    longest : NoneLonger path (length route) es
    origin : ((route ≡ r₀) × (value ≡ v₀)) ⊎ In (route, value) es

  Best-step :
      (path : Bytes) (r₀ : PathName) (v₀ : V) (r : PathName) (v : V) (es : List (PathName × V))
      → (longer (some (r₀, v₀)) (r, v) ≡ (r, v)) × (length r₀ ≤ length r)
        ⊎ (longer (some (r₀, v₀)) (r, v) ≡ (r₀, v₀)) × (length r < length r₀)
  unfolding longer
  Best-step path r₀ v₀ r v es = elim (Bool-cases (leb (length r₀) (length r))) [
    | inl e ↦ inl (rw e, ground arith)
    | inr e ↦ inr (rw e, ground arith)
  ]

  get_from-Best :
      (path : Bytes) (r₀ : PathName) (v₀ : V) (es : List (PathName × V))
      → matches path r₀ ≡ true
      → Best path r₀ v₀ es
  unfolding get_from
  get_from-Best path r₀ v₀ [] h = record {
    route = r₀;
    value = v₀;
    answer = refl;
    matched = h;
    grown = omega arith;
    longest = tt;
    origin = inl (refl, refl);
  }
  get_from-Best path r₀ v₀ ((r, v) ∷ es) h = elim (Bool-cases (matches path r)) [
    | inl m ↦ elim (Best-step path r₀ v₀ r v es) [
      | inl (e, le) ↦
          let b = get_from-Best path r v es m in
          record {
            route = b.route;
            value = b.value;
            answer = rw (m, e) b.answer;
            matched = b.matched;
            grown = omega (arith, b.grown);
            longest = (λ _. b.grown, b.longest);
            origin = inr (elim b.origin [ inl (p, q) ↦ inl (λ i. (p i, q i)) | inr k ↦ inr k ]);
          }
      | inr (e, lt) ↦
          let b = get_from-Best path r₀ v₀ es h in
          record {
            route = b.route;
            value = b.value;
            answer = rw (m, e) b.answer;
            matched = b.matched;
            grown = b.grown;
            longest = (λ _. omega (arith, b.grown), b.longest);
            origin = elim b.origin [ inl p ↦ inl p | inr k ↦ inr (inr k) ];
          }
    ]
    | inr m ↦
        let b = get_from-Best path r₀ v₀ es h in
        record {
          route = b.route;
          value = b.value;
          answer = rw m b.answer;
          matched = b.matched;
          grown = b.grown;
          longest = (λ k. absurd (clash k m), b.longest);
          origin = elim b.origin [ inl p ↦ inl p | inr k ↦ inr (inr k) ];
        }
  ]

  -- An entry that matches and that no matching entry exceeds.
  pub record Longest (path : Bytes) (routes : List (PathName × V)) (r : PathName) (v : V)
      : Type 0 where
    pub listed : In (r, v) routes
    pub matched : matches path r ≡ true
    pub longest : NoneLonger path (length r) routes

  -- `get` answers with a longest matching entry, and with nothing exactly when no entry matches.
  pub get_lem :
      (path : Bytes) (routes : List (PathName × V))
      → ((get path routes ≡ none) × NoneMatches path routes)
        ⊎ ((r : PathName) × (v : V) × (get path routes ≡ some (r, v)) × Longest path routes r v)
  unfolding get get_from longer
  get_lem path [] = inl (refl, tt)
  get_lem path ((r, v) ∷ es) = elim (Bool-cases (matches path r)) [
    | inl m ↦
        let b = get_from-Best path r v es m in
        inr (
          b.route,
          b.value,
          rw m b.answer,
          record {
            listed = elim b.origin [ inl (p, q) ↦ inl (λ i. (p i, q i)) | inr k ↦ inr k ];
            matched = b.matched;
            longest = (λ _. b.grown, b.longest);
          },
        )
    | inr m ↦ elim (get_lem path es) [
      | inl (e, n) ↦ inl (rw m e, (m, n))
      | inr (r', v', e, l) ↦ inr (
        r',
        v',
        rw m e,
        record {
          listed = inr l.listed;
          matched = l.matched;
          longest = (λ k. absurd (clash k m), l.longest);
        },
      )
    ]
  ]

  NoneLonger-In :
      (path : Bytes) (n : ℕ) (routes : List (PathName × V)) (r : PathName) (v : V)
      → NoneLonger path n routes
      → In (r, v) routes
      → matches path r ≡ true
      → length r ≤ n
  NoneLonger-In path n [] r v l k m = elim k [ ]
  NoneLonger-In path n ((r', v') ∷ es) r v (l, ls) (inl e) m =
      subst (λ x. length x ≤ n) (sym (ap (λ x. x.0) e))
        (l (subst (λ x. matches path x ≡ true) (ap (λ x. x.0) e) m))
  NoneLonger-In path n ((r', v') ∷ es) r v (l, ls) (inr k) m = NoneLonger-In path n es r v ls k m

  NoneMatches-In :
      (path : Bytes) (routes : List (PathName × V)) (r : PathName) (v : V)
      → NoneMatches path routes
      → In (r, v) routes
      → matches path r ≡ false
  NoneMatches-In path [] r v l k = elim k [ ]
  NoneMatches-In path ((r', v') ∷ es) r v (l, ls) (inl e) =
      subst (λ x. matches path x ≡ false) (sym (ap (λ x. x.0) e)) l
  NoneMatches-In path ((r', v') ∷ es) r v (l, ls) (inr k) = NoneMatches-In path es r v ls k

  -- A key has one value, as in any `HashMap`.
  abbrev pub IsMap : List (PathName × V) → Type 0
  IsMap routes = (r : PathName) (v w : V) → In (r, v) routes → In (r, w) routes → v ≡ w

  abbrev pub SameEntries : List (PathName × V) → List (PathName × V) → Type 0
  SameEntries xs ys = (r : PathName) (v : V) → In (r, v) xs ↔ In (r, v) ys

  -- The order of iteration does not matter: two lists of the same entries, with one value for a key,
  -- give one answer for every path.
  pub get-SameEntries :
      (path : Bytes) (xs ys : List (PathName × V))
      → IsMap xs
      → SameEntries xs ys
      → get path xs ≡ get path ys
  get-SameEntries path xs ys m s = elim (get_lem path xs) [
    | inl (e, n) ↦ elim (get_lem path ys) [
      | inl (f, k) ↦ e ∙ sym f
      | inr (r, v, f, l) ↦
          absurd (clash l.matched (NoneMatches-In path xs r v n ((s r v).1 l.listed)))
    ]
    | inr (r, v, e, l) ↦ elim (get_lem path ys) [
      | inl (f, k) ↦ absurd (clash l.matched (NoneMatches-In path ys r v k ((s r v).0 l.listed)))
      | inr (r', v', f, l') ↦ e ∙ ap some (same r v l r' v' l') ∙ sym f
    ]
  ]
    where
      same :
          (r : PathName) (v : V)
          → Longest path xs r v
          → (r' : PathName) (v' : V) → Longest path ys r' v'
          → ◌≡◌ {A = PathName × V} (r, v) (r', v')
      same r v l r' v' l' =
          let q : r ≡ r' =
            starts_with_once path r r' (matches-starts_with path r l.matched)
              (matches-starts_with path r' l'.matched)
              (omega (
                arith,
                NoneLonger-In path (length r') ys r v l'.longest ((s r v).0 l.listed) l.matched,
                NoneLonger-In path (length r) xs r' v' l.longest ((s r' v').1 l'.listed) l'.matched,
              )) in
          let k : In (r, v') xs = subst (λ x. In (x, v') xs) (sym q) ((s r' v').1 l'.listed) in
          λ i. (q i, m r v v' l.listed k i)

get_elem?-past : (p d : Bytes) → get_elem? (p ++ d) (length p) ≡ get_elem? d 0
get_elem?-past [] d = refl
get_elem?-past (x ∷ p) d = get_elem?-past p d

starts_with_append : (p d : Bytes) → starts_with (p ++ d) p ≡ true
starts_with_append [] d = refl
starts_with_append (x ∷ p) d = ground (arith, starts_with_append p d)

abbrev IsSegmentPrefix : Bytes → PathName → Type 0
IsSegmentPrefix path r = (path ≡ r) ⊎ ((rest : Bytes) × (path ≡ r ++ b'/' ∷ rest))

boundary-append :
    (r d : Bytes) → at_boundary (get_elem? (r ++ d) (length r)) ≡ true → IsSegmentPrefix (r ++ d) r
boundary-append r [] h = inl (append-nil r)
boundary-append r (c ∷ d) h =
    let e : at_boundary (some c) ≡ true =
      subst (λ o. at_boundary o ≡ true) (get_elem?-past r (c ∷ d)) h in
    let k : c ≡ b'/' = ground arith in inr (d, ap (λ x. r ++ x ∷ d) k)

-- A route other than a one-byte one (the default "/") matches exactly the paths that equal it or go
-- on below it after a slash: "/foo" takes "/foo" and "/foo/bar", never "/foobar".
matches_iff : (path r : Bytes) → length r ≢ 1 → (matches path r ≡ true) ↔ IsSegmentPrefix path r
unfolding matches
matches_iff path r h = (to, from)
  where
    to : matches path r ≡ true → IsSegmentPrefix path r
    to m =
        let e = (starts_with_iff path r).0 (ground arith) in
        let b : at_boundary (get_elem? path (length r)) ≡ true = ground arith in
        subst (λ x. IsSegmentPrefix x r) (sym e)
          (boundary-append r (drop (length r) path)
            (subst (λ x. at_boundary (get_elem? x (length r)) ≡ true) e b))

    from : IsSegmentPrefix path r → matches path r ≡ true
    from (inl e) = ground (arith, starts_with_append r [], get_elem?-past r [], append-nil r)
    from (inr (rest, e)) =
        ground (arith, starts_with_append r (b'/' ∷ rest), get_elem?-past r (b'/' ∷ rest))
