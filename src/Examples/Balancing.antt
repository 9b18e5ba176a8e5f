-- ===== src/Examples/Balancing.antt =====
-- Load balancing at concrete upstreams: rpxy-lib/src/backend/load_balance.
use rust_rpxy.Common.{
  ℕ, zero, suc, ◌<◌, ◌%◌, ◌≡◌, ◌↔◌, ◌⊎◌, refl, Bool, true, false, Option, none, some, List, [], ◌∷◌,
  arith, Bytes, bytes, get_elem?, count_if,
}
use rust_rpxy.Upstream.{Upstream, is_healthy, has_health_state}
use rust_rpxy.LoadBalance.{LoadBalanceRoundRobin, pick_nth_available_index, first_available_index}
use rust_rpxy.LoadBalance.Available.{rank, pick_iff, first_available_index-lowest}
use rust_rpxy.LoadBalance.RoundRobin.{nth_call, nth_call_once}
use rust_rpxy.LoadBalance.Sticky.{
  LoadBalanceSticky, StickyCookie, build_sticky_cookie, upstream_maps, get_ptr,
}
use rust_rpxy.LoadBalance.Sticky.Cookies.{IsInjective, get_ptr_sticks}
use rust_rpxy.LoadBalance.Candidates.{random, get, get_total}

abbrev up : Bool → Upstream
up healthy = record {
  uri = bytes "http://a:8080";
  host_header = none;
  health = some (record { healthy = healthy });
}

abbrev second_down : List Upstream
second_down = up true ∷ up false ∷ up true ∷ []

abbrev all_up : List Upstream
all_up = up true ∷ up true ∷ up true ∷ []

second_down_picks :
    (pick_nth_available_index second_down second_down 4 ≡ 0)
    × (pick_nth_available_index second_down second_down 5 ≡ 2)
unfolding pick_nth_available_index has_health_state is_healthy
second_down_picks = (refl, refl)

pick_iff_example :
    (pick_nth_available_index second_down second_down 5 ≡ 2)
    ↔ (5 % count_if is_healthy second_down ≡ rank second_down 2)
unfolding is_healthy
pick_iff_example = pick_iff second_down 5 2 (up true) refl refl

first_available_index-lowest_example :
    ((count_if is_healthy second_down ≡ 0) × (first_available_index second_down second_down ≡ 0))
    ⊎ ((u : Upstream) × (get_elem? second_down (first_available_index second_down second_down)
          ≡ some u)
        × (is_healthy u ≡ true)
        × (rank second_down (first_available_index second_down second_down) ≡ 0))
first_available_index-lowest_example = first_available_index-lowest second_down

abbrev fresh_pointer : LoadBalanceRoundRobin
fresh_pointer = record { ptr = 0 }

nth_call_once_example :
    (k : ℕ) × (k < count_if is_healthy second_down)
    × (nth_call k fresh_pointer second_down ≡ 2)
    × ((j : ℕ)
        → j < count_if is_healthy second_down
        → nth_call j fresh_pointer second_down ≡ 2
        → j ≡ k)
unfolding is_healthy
nth_call_once_example = nth_call_once fresh_pointer second_down 2 (up true) (omega arith) refl refl

abbrev id_of : Upstream → ℕ → Bytes
id_of u i = i ∷ []

abbrev sticky_lb : LoadBalanceSticky
sticky_lb = record {
  ptr = fresh_pointer;
  sticky_config = record {
    name = bytes "rpxy_sticky_token";
    domain = bytes "example.com";
    path = bytes "/";
    duration = 300;
  };
  maps = upstream_maps id_of all_up;
}

abbrev issued : StickyCookie
issued = build_sticky_cookie sticky_lb.sticky_config 1000 (0 ∷ [])

ids_differ : IsInjective sticky_lb.maps.upstream_index_map
unfolding upstream_maps
ids_differ zero zero id p q = refl
ids_differ zero (suc zero) id p q = absurd (cc)
ids_differ zero (suc (suc zero)) id p q = absurd (cc)
ids_differ (suc zero) zero id p q = absurd (cc)
ids_differ (suc zero) (suc zero) id p q = refl
ids_differ (suc zero) (suc (suc zero)) id p q = absurd (cc)
ids_differ (suc (suc zero)) zero id p q = absurd (cc)
ids_differ (suc (suc zero)) (suc zero) id p q = absurd (cc)
ids_differ (suc (suc zero)) (suc (suc zero)) id p q = refl
ids_differ (suc (suc (suc i))) j id p q = absurd (cc)
ids_differ i (suc (suc (suc j))) id p q = absurd (cc)

get_ptr_sticks_example :
    get_ptr
      (get_ptr sticky_lb 1000 none all_up all_up all_up).0
      1060
      (some issued)
      second_down
      all_up
      second_down
    ≡ (
      (get_ptr sticky_lb 1000 none all_up all_up all_up).0,
      some (record { ptr = 0; context = none }),
    )
unfolding get_ptr upstream_maps is_healthy has_health_state
get_ptr_sticks_example =
    get_ptr_sticks id_of all_up sticky_lb 1000 1060 none all_up all_up all_up second_down all_up
      second_down (record { ptr = 0; context = some issued }) issued (up true) refl ids_differ refl
      refl refl refl

get_total_example :
    (u : Upstream) × (context : Option StickyCookie) × ((get
        (λ _. 0)
        1000
        (record { inner = second_down; load_balance = random })
        none
        all_up
        second_down).1
      ≡ some (some u, context))
get_total_example =
    get_total id_of (λ _. 0) 1000 (record { inner = second_down; load_balance = random }) none
      second_down all_up second_down (λ n h. h) tt (omega arith) refl refl refl
