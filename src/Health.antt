-- ===== src/Health.antt =====
-- rpxy-lib/src/backend/health_check: counter.rs, health.rs and the round of checker.rs.
pub mod Monitor
pub mod Flags
use rust_rpxy.Common.{
  ℕ, ◌+◌, ◌≡◌, Bool, true, false, not, ◌&&◌, Option, none, some, List, [], ◌∷◌, map, min,
  if◌then◌else◌, leb, u32_max,
}

pub record ConsecutiveCounter : Type 0 where
  pub consecutive_ok : ℕ
  pub consecutive_fail : ℕ
  pub unhealthy_threshold : ℕ
  pub healthy_threshold : ℕ
  pub is_healthy : Bool

unfoldable pub new : ℕ → ℕ → ConsecutiveCounter
new unhealthy_threshold healthy_threshold = record {
  consecutive_ok = 0;
  consecutive_fail = 0;
  unhealthy_threshold = unhealthy_threshold;
  healthy_threshold = healthy_threshold;
  is_healthy = true;
}

-- `u32::saturating_add(1)`.
abbrev pub saturating_inc : ℕ → ℕ
saturating_inc n = min (n + 1) u32_max

record_ok : ConsecutiveCounter → ConsecutiveCounter × Option Bool
record_ok c =
    let ok : ℕ = saturating_inc c.consecutive_ok in
    if not c.is_healthy && leb c.healthy_threshold ok
    then (record c { consecutive_ok = 0; consecutive_fail = 0; is_healthy = true }, some true)
    else (record c { consecutive_ok = ok; consecutive_fail = 0 }, none)

record_fail : ConsecutiveCounter → ConsecutiveCounter × Option Bool
record_fail c =
    let fail : ℕ = saturating_inc c.consecutive_fail in
    if c.is_healthy && leb c.unhealthy_threshold fail
    then (record c { consecutive_ok = 0; consecutive_fail = 0; is_healthy = false }, some false)
    else (record c { consecutive_ok = 0; consecutive_fail = fail }, none)

-- The method `record`: the new counter, and the transition if one occurred.
pub record_check : ConsecutiveCounter → Bool → ConsecutiveCounter × Option Bool
unfolding record_ok record_fail
record_check c ok = if ok then record_ok c else record_fail c

-- The shared flag of one upstream.
pub record UpstreamHealth : Type 0 where
  pub healthy : Bool

abbrev pub new_health : UpstreamHealth
new_health = record { healthy = true }

abbrev pub set_health : UpstreamHealth → Option Bool → UpstreamHealth
set_health h none = h
set_health h (some healthy) = record { healthy = healthy }

-- One upstream as its checker task sees it.
pub record Checked : Type 0 where
  pub counter : ConsecutiveCounter
  pub health : UpstreamHealth

-- The task's start: a fresh counter and an optimistic flag for each upstream.
unfoldable pub start : ℕ → ℕ → Checked
unfolding new
start unhealthy healthy = record { counter = new unhealthy healthy; health = new_health }

pub apply_result : Checked → Bool → Checked
apply_result u ok =
    let (counter, transition) = record_check u.counter ok in
    record { counter = counter; health = set_health u.health transition }

-- A tick of `run_health_checker`: `join_all` keeps the order of the upstreams, so the i-th result
-- meets the i-th counter and flag. The second part is the warning that all are unhealthy.
abbrev apply_results : List Checked → List Bool → List Checked
apply_results (u ∷ us) (ok ∷ oks) = apply_result u ok ∷ apply_results us oks
apply_results us _ = us

abbrev all_unhealthy : List Checked → Bool
all_unhealthy [] = true
all_unhealthy (u ∷ us) = not u.health.healthy && all_unhealthy us

pub tick : List Checked → List Bool → List Checked × Bool
tick us results = let us' = apply_results us results in (us', all_unhealthy us')

-- The task over several ticks, until it is cancelled.
pub run_health_checker : List Checked → List (List Bool) → List Checked
unfolding tick
run_health_checker us [] = us
run_health_checker us (results ∷ ticks) = run_health_checker (tick us results).0 ticks
