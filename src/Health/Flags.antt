-- ===== src/Health/Flags.antt =====
-- The flags that the request handler reads, after the checker task's ticks.
use rust_rpxy.Common.{ℕ, ◌≤◌, ◌≡◌, refl, ◌∙◌, u32_max, Bool, true, false, List, [], ◌∷◌, arith, All}
use rust_rpxy.Health.Monitor.{Monitor, observe, fresh, Refines, record_check-Refines, Refines-new}
use rust_rpxy.Health.{
  Checked, start, new, new_health, apply_result, apply_results, tick, run_health_checker,
  record_check,
}

-- The flag shows what the counter decided.
abbrev pub IsSynced : Checked → Type 0
IsSynced u = u.health.healthy ≡ u.counter.is_healthy

apply_result-IsSynced : (u : Checked) (ok : Bool) → IsSynced u → IsSynced (apply_result u ok)
unfolding apply_result record_check
apply_result-IsSynced u true h = ground arith
apply_result-IsSynced u false h = ground arith

apply_results-IsSynced :
    (us : List Checked) (oks : List Bool) → All IsSynced us → All IsSynced (apply_results us oks)
apply_results-IsSynced [] oks h = tt
apply_results-IsSynced (u ∷ us) [] h = h
apply_results-IsSynced (u ∷ us) (ok ∷ oks) (h, hs) =
    (apply_result-IsSynced u ok h, apply_results-IsSynced us oks hs)

-- If every flag shows its counter's decision before the task's ticks, every flag does afterwards, for
-- any results in any number of ticks.
pub run_health_checker-IsSynced :
    (us : List Checked) (ticks : List (List Bool))
    → All IsSynced us
    → All IsSynced (run_health_checker us ticks)
unfolding run_health_checker tick
run_health_checker-IsSynced us [] h = h
run_health_checker-IsSynced us (oks ∷ ticks) h =
    run_health_checker-IsSynced (apply_results us oks) ticks (apply_results-IsSynced us oks h)

-- One upstream through the results of its checks.
pub follow : Checked → List Bool → Checked
follow u [] = u
follow u (ok ∷ oks) = follow (apply_result u ok) oks

pub watch : ℕ → ℕ → Monitor → List Bool → Monitor
watch u h m [] = m
watch u h m (ok ∷ oks) = watch u h (observe u h m ok).0 oks

follow-watch :
    (u h : ℕ) (c : Checked) (m : Monitor) (oks : List Bool)
    → u ≤ u32_max
    → h ≤ u32_max
    → IsSynced c
    → Refines u h c.counter m
    → (follow c oks).health.healthy ≡ (watch u h m oks).healthy
unfolding follow watch
follow-watch u h c m [] hu hh s r = s ∙ r.state
follow-watch u h c m (ok ∷ oks) hu hh s r =
    follow-watch u h (apply_result c ok) (observe u h m ok).0 oks hu hh
      (apply_result-IsSynced c ok s)
      (unfold apply_result in record_check-Refines u h c.counter m ok hu hh r)

-- With thresholds that fit a `u32`, the flag that the request handler reads is the monitor's state after
-- the same checks: an upstream is healthy until `u` checks in a row fail, and unhealthy until `h` in a
-- row succeed, a row being counted from the last change on.
pub follow-start :
    (u h : ℕ) (oks : List Bool)
    → u ≤ u32_max
    → h ≤ u32_max
    → (follow (start u h) oks).health.healthy ≡ (watch u h fresh oks).healthy
unfolding start
follow-start u h oks hu hh =
    follow-watch u h (record { counter = new u h; health = new_health }) fresh oks hu hh
      (unfold new in refl) (Refines-new u h)
