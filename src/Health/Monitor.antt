-- ===== src/Health/Monitor.antt =====
-- Health transitions against a monitor that keeps every result since the last transition.
use rust_rpxy.Common.{
  ℕ, ◌+◌, ◌≤◌, ◌≡◌, refl, Bool, true, false, not, ◌&&◌, Option, none, some, List, [], ◌∷◌, min,
  arith, if◌then◌else◌, leb, u32_max,
}
use rust_rpxy.Health.{ConsecutiveCounter, new, record_check}

-- How many results equal to `b` stand at the front, the newest ones.
abbrev pub leading : Bool → List Bool → ℕ
leading b [] = 0
leading true (true ∷ rs) = leading true rs + 1
leading false (false ∷ rs) = leading false rs + 1
leading _ (_ ∷ rs) = 0

-- The results are kept newest first.
pub record Monitor : Type 0 where
  pub healthy : Bool
  pub since : List Bool

-- A flip needs the threshold's number of equal results in a row, all after the last flip.
pub observe : ℕ → ℕ → Monitor → Bool → Monitor × Option Bool
observe unhealthy healthy m true =
    if not m.healthy && leb healthy (leading true (true ∷ m.since))
    then (record { healthy = true; since = [] }, some true)
    else (record m { since = true ∷ m.since }, none)
observe unhealthy healthy m false =
    if m.healthy && leb unhealthy (leading false (false ∷ m.since))
    then (record { healthy = false; since = [] }, some false)
    else (record m { since = false ∷ m.since }, none)

pub transitions : ConsecutiveCounter → List Bool → List (Option Bool)
transitions c [] = []
transitions c (ok ∷ oks) = let (c', t) = record_check c ok in t ∷ transitions c' oks

pub observed : ℕ → ℕ → Monitor → List Bool → List (Option Bool)
observed u h m [] = []
observed u h m (ok ∷ oks) = let (m', t) = observe u h m ok in t ∷ observed u h m' oks

-- The counter is the saturated length of the run.
pub record Refines (u h : ℕ) (c : ConsecutiveCounter) (m : Monitor) : Type 0 where
  pub state : c.is_healthy ≡ m.healthy
  pub ok : c.consecutive_ok ≡ min (leading true m.since) u32_max
  pub fail : c.consecutive_fail ≡ min (leading false m.since) u32_max
  pub unhealthy : c.unhealthy_threshold ≡ u
  pub recovery : c.healthy_threshold ≡ h

record_check-transition :
    (u h : ℕ) (c : ConsecutiveCounter) (m : Monitor) (b : Bool)
    → u ≤ u32_max
    → h ≤ u32_max
    → Refines u h c m
    → (record_check c b).1 ≡ (observe u h m b).1
unfolding record_check observe
record_check-transition u h c m true hu hh r = ground arith
record_check-transition u h c m false hu hh r = ground arith

pub record_check-Refines :
    (u h : ℕ) (c : ConsecutiveCounter) (m : Monitor) (b : Bool)
    → u ≤ u32_max
    → h ≤ u32_max
    → Refines u h c m
    → Refines u h (record_check c b).0 (observe u h m b).0
unfolding record_check observe
record_check-Refines u h c m true hu hh r = ground arith
record_check-Refines u h c m false hu hh r = ground arith

transitions-observed :
    (u h : ℕ) (c : ConsecutiveCounter) (m : Monitor) (oks : List Bool)
    → u ≤ u32_max
    → h ≤ u32_max
    → Refines u h c m
    → transitions c oks ≡ observed u h m oks
unfolding transitions observed
transitions-observed u h c m [] hu hh r = refl
transitions-observed u h c m (b ∷ oks) hu hh r = cc (
  record_check-transition u h c m b hu hh r,
  transitions-observed u h (record_check c b).0 (observe u h m b).0 oks hu hh
      (record_check-Refines u h c m b hu hh r),
)

abbrev pub fresh : Monitor
fresh = record { healthy = true; since = [] }

-- With thresholds that fit a `u32`, the counter reports over any sequence of results exactly the
-- transitions of the monitor: saturation and the resets never change an answer.
pub transitions-new :
    (u h : ℕ) (oks : List Bool)
    → u ≤ u32_max
    → h ≤ u32_max
    → transitions (new u h) oks ≡ observed u h fresh oks
unfolding new
transitions-new u h oks hu hh = transitions-observed u h (new u h) fresh oks hu hh (ground arith)

pub Refines-new : (u h : ℕ) → Refines u h (new u h) fresh
unfolding new
Refines-new u h = ground arith
