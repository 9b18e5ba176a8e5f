-- ===== src/Count.antt =====
-- rpxy-lib/src/count.rs: the two connection counters, and the admission in
-- rpxy-lib/src/proxy/proxy_main.rs that uses the first.
pub mod Requests
pub mod PerIp
use rust_rpxy.Common.{
  ℕ, zero, suc, ◌+◌, ◌-◌, ◌%◌, ◌≡◌, Bool, true, false, Option, none, some, List, [], ◌∷◌,
  if◌then◌else◌, ◌==◌, leb, usize_max, usize_mod, get_elem?, remove_at, unwrap_or,
}
use rust_rpxy.Net.{IpAddr, ip_eq}

-- `RequestCount`: the atomic value.
pub record RequestCount : Type 0 where
  pub value : ℕ

-- `fetch_add(1)` returns the old value, and wraps.
unfoldable pub increment : RequestCount → RequestCount × ℕ
increment c = (record { value = (c.value + 1) % usize_mod }, c.value)

-- `count - 1` in `usize`, which wraps below zero.
wrapping_pred : ℕ → ℕ
wrapping_pred count = (count + usize_max) % usize_mod

-- Where a thread stands in the loop of `decrement`.
pub data Decrement : Type 0 where
  start : Decrement
  loaded : ℕ → Decrement
  done : ℕ → Decrement

-- One atomic access of the loop: the load with its test, then the exchange, which starts the loop
-- again if the value has changed in between. `done` carries the returned count.
unfoldable pub decrement_step : Decrement → RequestCount → Decrement × RequestCount
unfolding wrapping_pred
decrement_step start c = if c.value == 0 then (done 0, c) else (loaded c.value, c)
decrement_step (loaded count) c =
    if c.value == count then (done count, record { value = wrapping_pred count }) else (start, c)
decrement_step (done count) c = (done count, c)

-- The per-IP map, and a guard's state; `none` is the guard of a disabled limit.
abbrev pub IpConnectionMap : Type 0
IpConnectionMap = IpAddr → Option ℕ

abbrev pub insert : IpConnectionMap → IpAddr → ℕ → IpConnectionMap
insert m ip n j = if ip_eq ip j then some n else m j

abbrev pub remove : IpConnectionMap → IpAddr → IpConnectionMap
remove m ip j = if ip_eq ip j then none else m j

pub record PerIpConnectionCount : Type 0 where
  pub inner : IpConnectionMap
  pub max_per_ip : ℕ

abbrev pub Guard : Type 0
Guard = Option IpAddr

unfoldable pub new_per_ip : ℕ → PerIpConnectionCount
new_per_ip max_per_ip = record { inner = λ _. none; max_per_ip = max_per_ip }

-- Under the lock: the entry is made first, so that a refusal leaves it.
acquire_locked : PerIpConnectionCount → IpAddr → ℕ → PerIpConnectionCount × Option Guard
acquire_locked s ip count =
    if leb s.max_per_ip count
    then (record s { inner = insert s.inner ip count }, none)
    else (record s { inner = insert s.inner ip (count + 1) }, some (some ip))

unfoldable pub try_acquire : PerIpConnectionCount → IpAddr → PerIpConnectionCount × Option Guard
unfolding acquire_locked
try_acquire s ip =
    if s.max_per_ip == 0 then (s, some none) else acquire_locked s ip (unwrap_or (s.inner ip) 0)

release_count : PerIpConnectionCount → IpAddr → Option ℕ → PerIpConnectionCount
release_count s ip none = s
release_count s ip (some count) =
    if count - 1 == 0
    then record s { inner = remove s.inner ip }
    else record s { inner = insert s.inner ip (count - 1) }

-- `impl Drop for PerIpConnectionGuard`.
unfoldable pub drop_guard : PerIpConnectionCount → Guard → PerIpConnectionCount
unfolding release_count
drop_guard s none = s
drop_guard s (some ip) = release_count s ip (s.inner ip)
