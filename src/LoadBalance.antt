-- ===== src/LoadBalance.antt =====
-- rpxy-lib/src/backend/load_balance/load_balance_main.rs, with the health-check feature. The flags are
-- read more than once while the checker tasks write them, so a choice takes a reading of the same
-- upstreams for each: `now` for a count and `later` for the scan, and `first` for what comes before.
pub mod Available
pub mod RoundRobin
pub mod Sticky
pub mod Candidates
use rust_rpxy.Common.{
  ℕ, zero, suc, ◌+◌, ◌-◌, ◌%◌, ◌≡◌, Bool, true, false, not, ◌&&◌, Option, none, some, List, [], ◌∷◌,
  if◌then◌else◌, ◌==◌, leb, length, any, count_if, unwrap_or, usize_max, usize_mod,
}
use rust_rpxy.Upstream.{Upstream, is_healthy, has_health_state}

-- `position(Upstream::is_healthy)`.
position : ℕ → List Upstream → Option ℕ
position i [] = none
position i (u ∷ us) = let rest = position (i + 1) us in if is_healthy u then some i else rest

pub first_healthy_index : List Upstream → Option ℕ
unfolding position
first_healthy_index us = position 0 us

pub healthy_index_count : List Upstream → ℕ
healthy_index_count us = count_if is_healthy us

-- `enumerate().filter(is_healthy).nth(target)`, with the index only.
nth_healthy : ℕ → List Upstream → ℕ → Option ℕ
nth_healthy i [] target = none
nth_healthy i (u ∷ us) target =
    let rest = nth_healthy (i + 1) us (if is_healthy u then target - 1 else target) in
    if is_healthy u && target == 0 then some i else rest

unfoldable pub pick_nth_available_index : List Upstream → List Upstream → ℕ → ℕ
unfolding healthy_index_count nth_healthy
pick_nth_available_index now later nth =
    let len = length now in
    if len == 0
    then 0
    else (if not (any has_health_state now)
        then nth % len
        else (if healthy_index_count now == len
            then nth % len
            else (if healthy_index_count now == 0
                then nth % len
                else unwrap_or (nth_healthy 0 later (nth % healthy_index_count now)) (nth % len))))

unfoldable pub first_available_index : List Upstream → List Upstream → ℕ
unfolding first_healthy_index
first_available_index now later =
    if length now == 0
    then 0
    else (if not (any has_health_state now) then 0 else unwrap_or (first_healthy_index later) 0)

pub record LoadBalanceRoundRobin : Type 0 where
  pub ptr : ℕ

-- `fetch_add`, then the store of 0 near overflow.
unfoldable pub fetch_and_advance : LoadBalanceRoundRobin → LoadBalanceRoundRobin × ℕ
fetch_and_advance rr =
    let prev = rr.ptr in
    (record { ptr = if leb (usize_max - 1) prev then 0 else (prev + 1) % usize_mod }, prev)

unfoldable pub round_robin_ptr :
    LoadBalanceRoundRobin → List Upstream → List Upstream → LoadBalanceRoundRobin × ℕ
unfolding fetch_and_advance
round_robin_ptr rr now later =
    let (rr', count) = fetch_and_advance rr in (rr', pick_nth_available_index now later count)

-- `random_range n` stands for `rng.random_range(0..n)` of the rand crate. The count of `first` is made
-- here, and the pick counts again.
pub random_ptr : (ℕ → ℕ) → List Upstream → List Upstream → List Upstream → ℕ
random_ptr random_range first now later =
    let len = length first in
    if len == 0
    then 0
    else (if not (any has_health_state first)
        then random_range len
        else (if healthy_index_count first == len
            then random_range len
            else (if healthy_index_count first == 0
                then random_range len
                else pick_nth_available_index now later
                    (random_range (healthy_index_count first)))))
