-- ===== src/Examples/Counting.antt =====
-- Counters and health checks at concrete inputs: rpxy-lib/src/count.rs and backend/health_check.
use rust_rpxy.Common.{◌+◌, ◌≡◌, ◌≢◌, ◌↔◌, Bool, true, false, none, List, [], ◌∷◌, arith}
use rust_rpxy.Net.{IpAddr, v4}
use rust_rpxy.Count.{try_acquire}
use rust_rpxy.Count.Requests
use rust_rpxy.Count.Requests.{
  Access, adds, enters, turns, additions, taken_all, idle, run-conserves,
}
use rust_rpxy.Count.PerIp
use rust_rpxy.Count.PerIp.{
  Event, acquires, drops, Inv, opened, held, run-Inv-opened, try_acquire-refused,
}
use rust_rpxy.Health.{new, start}
use rust_rpxy.Health.Monitor.{transitions, observed, fresh, transitions-new}
use rust_rpxy.Health.Flags.{follow, watch, follow-start}

abbrev client : IpAddr
client = v4 3221225985

-- Two increments race with one decrement, whose first exchange fails.
abbrev race : List Access
race = adds ∷ enters ∷ turns 0 ∷ adds ∷ turns 0 ∷ turns 0 ∷ turns 0 ∷ []

run-conserves_example :
    (Requests.run idle race).count.value + taken_all (Requests.run idle race).loops ≡ 2
run-conserves_example = run-conserves race (omega arith)

abbrev history : List Event
history = acquires client ∷ acquires client ∷ acquires client ∷ drops 0 ∷ []

run-Inv-opened_example : Inv (PerIp.run (opened 2) history)
run-Inv-opened_example = run-Inv-opened 2 history

abbrev full : PerIp.World
full = PerIp.run (opened 1) (acquires client ∷ [])

try_acquire-refused_example :
    (((try_acquire full.counter client).1 ≡ none)
      ↔ ((full.counter.max_per_ip ≢ 0) × (held client full.alive ≡ full.counter.max_per_ip)))
    × ((try_acquire full.counter client).1 ≡ none
        → (j : IpAddr) → (try_acquire full.counter client).0.inner j ≡ full.counter.inner j)
try_acquire-refused_example =
    try_acquire-refused full client (run-Inv-opened 1 (acquires client ∷ []))

abbrev results : List Bool
results = false ∷ false ∷ true ∷ false ∷ false ∷ false ∷ true ∷ true ∷ []

transitions-new_example : transitions (new 3 2) results ≡ observed 3 2 fresh results
transitions-new_example = transitions-new 3 2 results (omega arith) (omega arith)

follow-start_example :
    (follow (start 3 2) results).health.healthy ≡ (watch 3 2 fresh results).healthy
follow-start_example = follow-start 3 2 results (omega arith) (omega arith)
