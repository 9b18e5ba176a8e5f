-- ===== src/LoadBalance/Sticky/Cookies.antt =====
-- What a sticky cookie does: it names its upstream, and brings the client back to it.
use rust_rpxy.Common.{
  ℕ, zero, suc, ◌+◌, ◌<◌, ◌≡◌, ◌≢◌, ◌⊎◌, inl, inr, refl, subst, ◌∙◌, ap, true, false, Option, none,
  some, List, [], ◌∷◌, arith, if◌then◌else◌, Bytes, bytes_eq, bytes_eq_sound, bytes_eq_refl,
  get_elem?, get_elem?_lt, lt_of_get_elem?, length, Bool-cases, Option-cases,
}
use rust_rpxy.Upstream.{Upstream, is_healthy}
use rust_rpxy.LoadBalance.{round_robin_ptr, fetch_and_advance}
use rust_rpxy.LoadBalance.Available.{pick-lt}
use rust_rpxy.LoadBalance.Sticky.{
  LoadBalanceSticky, IdMap, StickyCookie, PointerToUpstream, build_sticky_cookie, ids_from,
  insert_all, upstream_maps, build_ptr_with_new_cookie, fall_back, stick, get_ptr,
}

-- No two upstreams have one id.
abbrev pub IsInjective : List Bytes → Type 0
IsInjective ids =
    (i j : ℕ) (id : Bytes) → get_elem? ids i ≡ some id → get_elem? ids j ≡ some id → i ≡ j

length-ids_from :
    (id_of : Upstream → ℕ → Bytes) (i : ℕ) (us : List Upstream)
    → length (ids_from id_of i us) ≡ length us
unfolding ids_from
length-ids_from id_of i [] = refl
length-ids_from id_of i (u ∷ us) = ap suc (length-ids_from id_of (i + 1) us)

-- The entry of an id is the last position that holds it.
insert_all-absent :
    (off : ℕ) (ids : List Bytes) (m : IdMap) (id : Bytes)
    → ((i : ℕ) → get_elem? ids i ≢ some id)
    → insert_all off ids m id ≡ m id
unfolding insert_all
insert_all-absent off [] m id h = refl
insert_all-absent off (x ∷ ids) m id h =
    insert_all-absent (off + 1) ids _ id (λ i. h (suc i)) ∙ other (Bool-cases (bytes_eq x id))
  where
    other :
        (bytes_eq x id ≡ true) ⊎ (bytes_eq x id ≡ false)
        → (if bytes_eq x id then some off else m id) ≡ m id
    other (inl e) = absurd (h 0 (ap some (bytes_eq_sound x id e)))
    other (inr e) = rw e

insert_all_at :
    (off : ℕ) (ids : List Bytes) (m : IdMap) (i : ℕ) (id : Bytes)
    → IsInjective ids
    → get_elem? ids i ≡ some id
    → insert_all off ids m id ≡ some (off + i)
unfolding insert_all
insert_all_at off [] m i id inj e = absurd (cc)
insert_all_at off (x ∷ ids) m zero id inj e =
    insert_all-absent (off + 1) ids _ id (λ i h. absurd (omega (arith, inj 0 (suc i) id e h)))
    ∙ ground (arith, bytes_eq_refl id)
insert_all_at off (x ∷ ids) m (suc i) id inj e =
    insert_all_at (off + 1) ids _ i id (λ a b c p q. omega (arith, inj (suc a) (suc b) c p q)) e
    ∙ ap some (omega arith)

-- A balancer whose maps are those of its upstreams.
abbrev pub IsBuilt : (Upstream → ℕ → Bytes) → List Upstream → LoadBalanceSticky → Type 0
IsBuilt id_of us lb = lb.maps ≡ upstream_maps id_of us

fall_back-some :
    (id_of : Upstream → ℕ → Bytes) (lb : LoadBalanceSticky) (ts : ℕ)
    (built now later : List Upstream)
    → IsBuilt id_of built lb
    → 0 < length now
    → length built ≡ length now
    → length later ≡ length now
    → (id : Bytes) × ((fall_back lb ts now later).1
        ≡ some (record {
          ptr = (round_robin_ptr lb.ptr now later).1;
          context = some (build_sticky_cookie lb.sticky_config ts id);
        }))
      × (get_elem? lb.maps.upstream_index_map (round_robin_ptr lb.ptr now later).1 ≡ some id)
      × ((round_robin_ptr lb.ptr now later).1 < length now)
unfolding fall_back upstream_maps round_robin_ptr
fall_back-some id_of lb ts built now later b h l e =
    let (id, g) = found in (id, rw (g, build_ptr_with_new_cookie), g, bound)
  where
    bound : (round_robin_ptr lb.ptr now later).1 < length now
    bound = pick-lt now later (fetch_and_advance lb.ptr).1 h e

    found :
        (id : Bytes) × (get_elem? lb.maps.upstream_index_map (round_robin_ptr lb.ptr now later).1
          ≡ some id)
    found = rw b (
        get_elem?_lt (ids_from id_of 0 built) (round_robin_ptr lb.ptr now later).1
          (omega (arith, bound, length-ids_from id_of 0 built)))

maps-get_ptr :
    (lb : LoadBalanceSticky) (ts : ℕ) (c : Option StickyCookie) (first now later : List Upstream)
    → (get_ptr lb ts c first now later).0.maps ≡ lb.maps
unfolding get_ptr
maps-get_ptr lb ts none first now later = refl
maps-get_ptr lb ts (some c) first now later = ground arith

-- A cookie that a pointer carries holds the id of the pointer's upstream.
fall_back_issues :
    (lb : LoadBalanceSticky) (ts : ℕ) (now later : List Upstream) (p : PointerToUpstream)
    (cookie : StickyCookie)
    → (fall_back lb ts now later).1 ≡ some p
    → p.context ≡ some cookie
    → get_elem? lb.maps.upstream_index_map p.ptr ≡ some cookie.value.value
unfolding fall_back build_sticky_cookie
fall_back_issues lb ts now later p cookie e c =
    elim (Option-cases
      (get_elem? lb.maps.upstream_index_map (round_robin_ptr lb.ptr now later).1)) [
        | inl n ↦ ground arith
        | inr (id, g) ↦ ground arith
      ]

get_ptr_issues :
    (lb : LoadBalanceSticky) (ts : ℕ) (c : Option StickyCookie) (first now later : List Upstream)
    (p : PointerToUpstream) (cookie : StickyCookie)
    → (get_ptr lb ts c first now later).1 ≡ some p
    → p.context ≡ some cookie
    → get_elem? lb.maps.upstream_index_map p.ptr ≡ some cookie.value.value
unfolding get_ptr
get_ptr_issues lb ts none first now later p cookie e k =
    fall_back_issues lb ts now later p cookie e k
get_ptr_issues lb ts (some c) first now later p cookie e k =
    ground (arith, fall_back_issues lb ts now later p cookie)

-- For a balancer built from upstreams with pairwise different ids: when a call issues a cookie, a
-- later request with that cookie goes to the same upstream as long as that one is healthy, gets no new
-- cookie, and leaves the round robin pointer alone, whatever the other flags are then.
pub get_ptr_sticks :
    (id_of : Upstream → ℕ → Bytes) (built : List Upstream) (lb : LoadBalanceSticky) (ts ts' : ℕ)
    (c : Option StickyCookie) (first now later first' now' later' : List Upstream)
    (p : PointerToUpstream) (cookie : StickyCookie) (u : Upstream)
    → IsBuilt id_of built lb
    → IsInjective lb.maps.upstream_index_map
    → (get_ptr lb ts c first now later).1 ≡ some p
    → p.context ≡ some cookie
    → get_elem? first' p.ptr ≡ some u
    → is_healthy u ≡ true
    → get_ptr (get_ptr lb ts c first now later).0 ts' (some cookie) first' now' later'
      ≡ ((get_ptr lb ts c first now later).0, some (record { ptr = p.ptr; context = none }))
get_ptr_sticks id_of built lb ts ts' c first now later first' now' later' p cookie u b inj e k g h =
    resolves (get_ptr lb ts c first now later).0 (
      ap (λ m. m.upstream_id_map cookie.value.value) (maps-get_ptr lb ts c first now later) ∙ known)
  where
    known : lb.maps.upstream_id_map cookie.value.value ≡ some p.ptr
    known =
        ap (λ m. m.upstream_id_map cookie.value.value) b
        ∙ unfold upstream_maps in
          insert_all_at 0 (ids_from id_of 0 built) (λ _. none) p.ptr cookie.value.value
            (subst (λ m. IsInjective m.upstream_index_map) b inj)
            (subst (λ m. get_elem? m.upstream_index_map p.ptr ≡ some cookie.value.value) b
              (get_ptr_issues lb ts c first now later p cookie e k))
          ∙ ap some (omega arith)

    resolves :
        (lb' : LoadBalanceSticky)
        → lb'.maps.upstream_id_map cookie.value.value ≡ some p.ptr
        → get_ptr lb' ts' (some cookie) first' now' later'
          ≡ (lb', some (record { ptr = p.ptr; context = none }))
    resolves lb' r = unfold get_ptr in rw (r, stick) (rw (g, stick) (rw h))

abbrev pub Answers : List Upstream → Option PointerToUpstream → Type 0
Answers now r = (p : PointerToUpstream) × (r ≡ some p) × (p.ptr < length now)

stick_total :
    (lb : LoadBalanceSticky) (ts : ℕ) (first now later : List Upstream) (o : Option ℕ)
    → Answers first (fall_back lb ts now later).1
    → Answers first (stick lb ts first now later o).1
unfolding stick
stick_total lb ts first now later none a = a
stick_total lb ts first now later (some i) a = elim (Option-cases (get_elem? first i)) [
  | inl n ↦ rw (n, stick) a
  | inr (u, g) ↦ elim (Bool-cases (is_healthy u)) [
    | inl h ↦ (record { ptr = i; context = none }, ground arith, lt_of_get_elem? first i g)
    | inr h ↦ rw (g, stick) (rw (h, stick) a)
  ]
]

fall_back_total :
    (id_of : Upstream → ℕ → Bytes) (lb : LoadBalanceSticky) (ts : ℕ)
    (built now later : List Upstream)
    → IsBuilt id_of built lb
    → 0 < length now
    → length built ≡ length now
    → length later ≡ length now
    → Answers now (fall_back lb ts now later).1
fall_back_total id_of lb ts built now later b h l e =
    let (id, r, g, lt) = fall_back-some id_of lb ts built now later b h l e in
    (
      record {
        ptr = (round_robin_ptr lb.ptr now later).1;
        context = some (build_sticky_cookie lb.sticky_config ts id);
      },
      r,
      lt,
    )

-- A balancer built from a non-empty list of upstreams always answers with an index of that list,
-- whatever the cookie and whatever the flags do meanwhile: the unwrapped lookup never fails.
pub get_ptr_total :
    (id_of : Upstream → ℕ → Bytes) (lb : LoadBalanceSticky) (ts : ℕ) (c : Option StickyCookie)
    (built first now later : List Upstream)
    → IsBuilt id_of built lb
    → 0 < length first
    → length built ≡ length first
    → length now ≡ length first
    → length later ≡ length first
    → Answers first (get_ptr lb ts c first now later).1
unfolding get_ptr
get_ptr_total id_of lb ts c built first now later b h l m e = go c
  where
    fallen : Answers first (fall_back lb ts now later).1
    fallen =
        let (p, r, lt) =
          fall_back_total id_of lb ts built now later b (omega arith) (omega arith) (omega arith) in
        (p, r, omega arith)

    go : (c : Option StickyCookie) → Answers first (get_ptr lb ts c first now later).1
    go none = fallen
    go (some c) = stick_total lb ts first now later (lb.maps.upstream_id_map c.value.value) fallen
