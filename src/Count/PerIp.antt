-- ===== src/Count/PerIp.antt =====
-- The per-IP counter against the list of the guards that are alive.
use rust_rpxy.Common.{
  ℕ, zero, suc, ◌≤◌, ◌≡◌, ◌≢◌, ◌↔◌, inl, inr, refl, sym, subst, Bool, false, Option, none, some,
  List, [], ◌∷◌, arith, count_if, get_elem?, remove_at, count_if-remove_at, Option-cases,
}
use rust_rpxy.Net.{IpAddr, ip_eq, ip_eq_iff, ip_eq_refl}
use rust_rpxy.Count.{PerIpConnectionCount, Guard, new_per_ip, try_acquire, drop_guard}

-- The counter with all guards that are alive.
pub record World : Type 0 where
  pub counter : PerIpConnectionCount
  pub alive : List Guard

pub data Event : Type 0 where
  acquires : IpAddr → Event
  drops : ℕ → Event

abbrev keep : List Guard → Option Guard → List Guard
keep gs none = gs
keep gs (some g) = g ∷ gs

drop_at : World → ℕ → Option Guard → World
drop_at w i none = w
drop_at w i (some g) = record { counter = drop_guard w.counter g; alive = remove_at w.alive i }

-- Each call holds the mutex, so a history of the threads is a sequence of calls.
pub step : World → Event → World
unfolding drop_at
step w (acquires ip) =
    let (counter, g) = try_acquire w.counter ip in
    record { counter = counter; alive = keep w.alive g }
step w (drops i) = drop_at w i (get_elem? w.alive i)

pub run : World → List Event → World
run w [] = w
run w (e ∷ es) = run (step w e) es

abbrev pub holds : IpAddr → Guard → Bool
holds ip none = false
holds ip (some j) = ip_eq j ip

-- The slots that guards hold for an address.
abbrev pub held : IpAddr → List Guard → ℕ
held ip = count_if (holds ip)

-- The entry of an address, for the number of its guards: no entry at zero.
abbrev pub entry_for : ℕ → Option ℕ
entry_for zero = none
entry_for (suc n) = some (suc n)

pub record Inv (w : World) : Type 0 where
  pub counted : (ip : IpAddr) → w.counter.inner ip ≡ entry_for (held ip w.alive)
  pub capped : (ip : IpAddr) → held ip w.alive ≤ w.counter.max_per_ip

try_acquire-Inv :
    (w : World) (ip : IpAddr)
    → Inv w
    → (j : IpAddr)
    → ((step w (acquires ip)).counter.inner j ≡ entry_for (held j (step w (acquires ip)).alive))
      × (held j (step w (acquires ip)).alive ≤ w.counter.max_per_ip)
unfolding step try_acquire
try_acquire-Inv w ip v j =
    ground (arith, v.counted j, v.counted ip, v.capped j, v.capped ip, ip_eq_iff ip j)

drop_guard-Inv :
    (w : World) (i : ℕ) (g : Guard)
    → get_elem? w.alive i ≡ some g
    → Inv w
    → (j : IpAddr)
    → ((drop_at w i (some g)).counter.inner j ≡ entry_for (held j (drop_at w i (some g)).alive))
      × (held j (drop_at w i (some g)).alive ≤ w.counter.max_per_ip)
unfolding drop_at drop_guard
drop_guard-Inv w i none e v j =
    ground (arith, v.counted j, v.capped j, count_if-remove_at (holds j) w.alive i e)
drop_guard-Inv w i (some ip) e v j = ground (
  arith,
  v.counted j,
  v.counted ip,
  v.capped j,
  ip_eq_iff ip j,
  ip_eq_refl ip,
  count_if-remove_at (holds j) w.alive i e,
  count_if-remove_at (holds ip) w.alive i e,
)

max_per_ip-step : (w : World) (e : Event) → (step w e).counter.max_per_ip ≡ w.counter.max_per_ip
unfolding step try_acquire drop_guard
max_per_ip-step w (acquires ip) = ground arith
max_per_ip-step w (drops i) = elim (Option-cases (get_elem? w.alive i)) [
  | inl e ↦ rw (e, drop_at)
  | inr (g, e) ↦ rw (e, drop_at) (kept g)
]
  where
    kept : (g : Guard) → (drop_guard w.counter g).max_per_ip ≡ w.counter.max_per_ip
    kept none = refl
    kept (some ip) = ground arith

step-Inv : (w : World) (e : Event) → Inv w → Inv (step w e)
step-Inv w (acquires ip) v = record {
  counted = λ j. (try_acquire-Inv w ip v j).0;
  capped = λ j. rw (max_per_ip-step w (acquires ip)) (try_acquire-Inv w ip v j).1;
}
step-Inv w (drops i) v = elim (Option-cases (get_elem? w.alive i)) [
  | inl e ↦ subst Inv (sym (missing e)) v
  | inr (g, e) ↦ record {
    counted = λ j. rw (found g e) (drop_guard-Inv w i g e v j).0;
    capped = λ j. rw (max_per_ip-step w (drops i), found g e) (drop_guard-Inv w i g e v j).1;
  }
]
  where
    missing : get_elem? w.alive i ≡ none → step w (drops i) ≡ w
    missing e = unfold step in rw (e, drop_at)

    found : (g : Guard) → get_elem? w.alive i ≡ some g → step w (drops i) ≡ drop_at w i (some g)
    found g e = unfold step in rw e

run-Inv : (w : World) (es : List Event) → Inv w → Inv (run w es)
unfolding run
run-Inv w [] v = v
run-Inv w (e ∷ es) v = run-Inv (step w e) es (step-Inv w e v)

abbrev pub opened : ℕ → World
opened max_per_ip = record { counter = new_per_ip max_per_ip; alive = [] }

opened-Inv : (max_per_ip : ℕ) → Inv (opened max_per_ip)
unfolding new_per_ip
opened-Inv max_per_ip = record { counted = λ ip. refl; capped = λ ip. omega arith }

-- After any history of acquisitions and drops on a new counter, the map holds for every address
-- exactly the number of its live guards, with no entry when there is none, and no address has more
-- of them than the limit (which is zero for the disabled counter: its guards hold no slot).
pub run-Inv-opened : (max_per_ip : ℕ) (es : List Event) → Inv (run (opened max_per_ip) es)
run-Inv-opened max_per_ip es = run-Inv (opened max_per_ip) es (opened-Inv max_per_ip)

-- In a state that satisfies the invariant, an acquisition is refused exactly when the limit is on and
-- the address holds as many slots as it allows; a refusal changes no entry of the map.
pub try_acquire-refused :
    (w : World) (ip : IpAddr)
    → Inv w
    → (((try_acquire w.counter ip).1 ≡ none)
        ↔ ((w.counter.max_per_ip ≢ 0) × (held ip w.alive ≡ w.counter.max_per_ip)))
      × ((try_acquire w.counter ip).1 ≡ none
          → (j : IpAddr) → (try_acquire w.counter ip).0.inner j ≡ w.counter.inner j)
unfolding try_acquire
try_acquire-refused w ip v = (
  (λ e. ground (arith, v.counted ip, v.capped ip), λ e. ground (arith, v.counted ip, v.capped ip)),
  λ e j. ground (arith, v.counted ip, v.counted j, v.capped ip, ip_eq_iff ip j),
)
