-- ===== src/LoadBalance/Candidates.antt =====
-- The enum `LoadBalance` with its dispatch, and `UpstreamCandidates::get` of upstream.rs.
use rust_rpxy.Common.{
  ℕ, ◌+◌, ◌<◌, ◌≡◌, inl, inr, refl, Option, none, some, List, [], ◌∷◌, arith, length, get_elem?,
  get_elem?_lt, Bytes, Option-cases,
}
use rust_rpxy.Upstream.{Upstream}
use rust_rpxy.LoadBalance.{
  LoadBalanceRoundRobin, fetch_and_advance, round_robin_ptr, random_ptr, first_available_index,
  position, pick_nth_available_index, healthy_index_count,
}
use rust_rpxy.LoadBalance.Available.{pick-lt}
use rust_rpxy.LoadBalance.Sticky.{LoadBalanceSticky, PointerToUpstream, StickyCookie, get_ptr}
use rust_rpxy.LoadBalance.Sticky.Cookies.{IsBuilt, Answers, get_ptr_total}

pub data LoadBalance : Type 0 where
  fix_to_first random primary_backup : LoadBalance
  round_robin : LoadBalanceRoundRobin → LoadBalance
  sticky : LoadBalanceSticky → LoadBalance

abbrev plain : ℕ → PointerToUpstream
plain ptr = record { ptr = ptr; context = none }

-- The balancer after the call, and the pointer; `none` is a panic. `random_range` is the rand crate's,
-- `ts` the time.
unfoldable pub get_context :
    (ℕ → ℕ)
    → ℕ
    → LoadBalance
    → Option StickyCookie
    → List Upstream
    → List Upstream
    → List Upstream
    → LoadBalance × Option PointerToUpstream
get_context random_range ts fix_to_first c first now later =
    (fix_to_first, some (plain (first_available_index first later)))
get_context random_range ts (round_robin rr) c first now later =
    let (rr', ptr) = round_robin_ptr rr now later in (round_robin rr', some (plain ptr))
get_context random_range ts random c first now later =
    (random, some (plain (random_ptr random_range first now later)))
get_context random_range ts (sticky lb) c first now later =
    let (lb', p) = get_ptr lb ts c first now later in (sticky lb', p)
get_context random_range ts primary_backup c first now later =
    (primary_backup, some (plain (first_available_index first later)))

-- The part of the candidates that the choice reads.
pub record UpstreamCandidates : Type 0 where
  pub inner : List Upstream
  pub load_balance : LoadBalance

-- The candidates with the advanced balancer, the upstream, and the context for the response. `now` and
-- `later` are the second and the third reading of the flags of `inner`.
unfoldable pub get :
    (ℕ → ℕ)
    → ℕ
    → UpstreamCandidates
    → Option StickyCookie
    → List Upstream
    → List Upstream
    → UpstreamCandidates × Option (Option Upstream × Option StickyCookie)
get random_range ts cs c now later =
    let (lb, p) = get_context random_range ts cs.load_balance c cs.inner now later in
    (
      record cs { load_balance = lb },
      elim p [ none ↦ none | some p ↦ some (get_elem? cs.inner p.ptr, p.context) ],
    )

position-lt :
    (off : ℕ) (us : List Upstream) (i : ℕ) → position off us ≡ some i → i < off + length us
unfolding position
position-lt off [] i e = absurd (cc)
position-lt off (u ∷ us) i e = ground (arith, position-lt (off + 1) us i)

first_available_index-lt :
    (now later : List Upstream)
    → 0 < length now
    → length later ≡ length now
    → first_available_index now later < length now
unfolding first_available_index
first_available_index-lt now later h e = elim (Option-cases (position 0 later)) [
  | inl n ↦ ground arith
  | inr (i, s) ↦ ground (arith, position-lt 0 later i s)
]

random_ptr-lt :
    (random_range : ℕ → ℕ) (first now later : List Upstream)
    → ((n : ℕ) → 0 < n → random_range n < n)
    → 0 < length first
    → length now ≡ length first
    → length later ≡ length first
    → random_ptr random_range first now later < length first
unfolding random_ptr
random_ptr-lt random_range first now later r h m e =
    let picked : pick_nth_available_index now later (random_range (healthy_index_count first))
        < length first =
      omega (
        arith,
        pick-lt now later (random_range (healthy_index_count first)) (omega arith) (omega arith),
      ) in
    ground (arith, r (length first), picked)

-- The sticky maps, if any, are those of upstreams in the same number.
abbrev pub IsReady : (Upstream → ℕ → Bytes) → List Upstream → LoadBalance → Type 0
IsReady id_of built (sticky lb) = IsBuilt id_of built lb
IsReady id_of built _ = Unit

get_context-Answers :
    (id_of : Upstream → ℕ → Bytes) (random_range : ℕ → ℕ) (ts : ℕ) (lb : LoadBalance)
    (c : Option StickyCookie) (built first now later : List Upstream)
    → ((n : ℕ) → 0 < n → random_range n < n)
    → IsReady id_of built lb
    → 0 < length first
    → length built ≡ length first
    → length now ≡ length first
    → length later ≡ length first
    → Answers first (get_context random_range ts lb c first now later).1
unfolding get_context round_robin_ptr
get_context-Answers id_of rnd ts fix_to_first c built first now later r b h l m e =
    (plain (first_available_index first later), refl, first_available_index-lt first later h e)
get_context-Answers id_of rnd ts primary_backup c built first now later r b h l m e =
    (plain (first_available_index first later), refl, first_available_index-lt first later h e)
get_context-Answers id_of rnd ts random c built first now later r b h l m e =
    (plain (random_ptr rnd first now later), refl, random_ptr-lt rnd first now later r h m e)
get_context-Answers id_of rnd ts (round_robin rr) c built first now later r b h l m e =
    let lt = pick-lt now later (fetch_and_advance rr).1 (omega arith) (omega arith) in
    (plain (pick_nth_available_index now later (fetch_and_advance rr).1), refl, omega arith)
get_context-Answers id_of rnd ts (sticky lb) c built first now later r b h l m e =
    get_ptr_total id_of lb ts c built first now later b h l m e

-- With at least one upstream, every kind of balancer yields an upstream of the list and never panics,
-- whatever the health flags are each time that the call reads them, if `random_range n` is below n and
-- the sticky maps were built from as many upstreams.
pub get_total :
    (id_of : Upstream → ℕ → Bytes) (random_range : ℕ → ℕ) (ts : ℕ) (cs : UpstreamCandidates)
    (c : Option StickyCookie) (built now later : List Upstream)
    → ((n : ℕ) → 0 < n → random_range n < n)
    → IsReady id_of built cs.load_balance
    → 0 < length cs.inner
    → length built ≡ length cs.inner
    → length now ≡ length cs.inner
    → length later ≡ length cs.inner
    → (u : Upstream) × (context : Option StickyCookie) × ((get random_range ts cs c now later).1
        ≡ some (some u, context))
unfolding get
get_total id_of rnd ts cs c built now later r b h l m e =
    let (p, s, lt) =
      get_context-Answers id_of rnd ts cs.load_balance c built cs.inner now later r b h l m e in
    let (u, g) = get_elem?_lt cs.inner p.ptr lt in (u, p.context, rw (s, get) (rw g))
