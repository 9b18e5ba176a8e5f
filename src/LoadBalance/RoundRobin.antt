-- ===== src/LoadBalance/RoundRobin.antt =====
-- Calls of the round robin balancer in a row.
use rust_rpxy.Common.{
  ℕ, zero, suc, ◌+◌, ◌-◌, ◌%◌, ◌≤◌, ◌<◌, ◌≡◌, sym, ◌∙◌, true, List, arith, count_if, get_elem?,
  some, usize_max, if◌then◌else◌, leb, Bool-cases, ◌⊎◌, inl, inr,
}
use native.Mathlib.Nat.{mod-add-mod, mod-eq-sub-mod, mod-eq_of_lt}
use rust_rpxy.Upstream.{Upstream, is_healthy}
use rust_rpxy.LoadBalance.{
  LoadBalanceRoundRobin, fetch_and_advance, round_robin_ptr, pick_nth_available_index,
}
use rust_rpxy.LoadBalance.Available.{pick_iff, rank, rank-lt}

-- The balancer after some calls with the flags in one state.
pub calls : ℕ → LoadBalanceRoundRobin → LoadBalanceRoundRobin
calls zero rr = rr
calls (suc k) rr = calls k (fetch_and_advance rr).0

-- The index of the call after `k` others.
pub nth_call : ℕ → LoadBalanceRoundRobin → List Upstream → ℕ
nth_call k rr us = (round_robin_ptr (calls k rr) us us).1

calls-ptr :
    (k : ℕ) (rr : LoadBalanceRoundRobin) → rr.ptr + k < usize_max → (calls k rr).ptr ≡ rr.ptr + k
unfolding calls fetch_and_advance
calls-ptr zero rr h = omega arith
calls-ptr (suc k) rr h = ground (arith, calls-ptr k (record { ptr = rr.ptr + 1 }))

-- The pointer stays below the largest `usize`, so the increment never wraps.
pub fetch_and_advance-lt :
    (rr : LoadBalanceRoundRobin) → rr.ptr < usize_max → (fetch_and_advance rr).0.ptr < usize_max
unfolding fetch_and_advance
fetch_and_advance-lt rr h = ground arith

-- How many steps from `p` to the next number with remainder `r`.
abbrev distance : ℕ → ℕ → ℕ → ℕ
distance p n r = if leb (p % n) r then r - p % n else r + n - p % n

mod_shift : (p k n : ℕ) → p % n + k < n → (p + k) % n ≡ p % n + k
mod_shift p k n h = grind arith

mod_wrap : (p k n : ℕ) → n ≤ p % n + k → p % n + k < n + n → (p + k) % n ≡ p % n + k - n
mod_wrap p k n h l = sym (mod-add-mod p n k) ∙ mod-eq-sub-mod h ∙ mod-eq_of_lt (omega arith)

distance-lt : (p n r : ℕ) → r < n → distance p n r < n
distance-lt p n r h = ground arith

mod-distance : (p n r : ℕ) → r < n → (p + distance p n r) % n ≡ r
mod-distance p n r h = elim (Bool-cases (leb (p % n) r)) [
  | inl e ↦ rw e (mod_shift p (r - p % n) n (ground arith) ∙ ground arith)
  | inr e ↦ rw e (mod_wrap p (r + n - p % n) n (ground arith) (ground arith) ∙ ground arith)
]

mod_once : (p n k j : ℕ) → k < n → j < n → (p + k) % n ≡ (p + j) % n → k ≡ j
mod_once p n k j hk hj e = elim (leb_cases (p % n + k) n) [
  | inl k_in ↦ elim (leb_cases (p % n + j) n) [
    | inl j_in ↦ omega (arith, mod_shift p k n k_in, mod_shift p j n j_in)
    | inr j_out ↦ omega (arith, mod_shift p k n k_in, mod_wrap p j n j_out (omega arith))
  ]
  | inr k_out ↦ elim (leb_cases (p % n + j) n) [
    | inl j_in ↦ omega (arith, mod_wrap p k n k_out (omega arith), mod_shift p j n j_in)
    | inr j_out ↦
        omega (arith, mod_wrap p k n k_out (omega arith), mod_wrap p j n j_out (omega arith))
  ]
]
  where
    leb_cases : (a b : ℕ) → (a < b) ⊎ (b ≤ a)
    leb_cases a b = grind arith

nth_call_lem :
    (k : ℕ) (rr : LoadBalanceRoundRobin) (us : List Upstream)
    → rr.ptr + k < usize_max
    → nth_call k rr us ≡ pick_nth_available_index us us (rr.ptr + k)
unfolding nth_call round_robin_ptr fetch_and_advance
nth_call_lem k rr us h = rw (calls-ptr k rr h)

-- While the flags do not change, and away from the reset near overflow, any run of as many calls as
-- there are healthy upstreams serves each healthy upstream exactly once.
pub nth_call_once :
    (rr : LoadBalanceRoundRobin) (us : List Upstream) (i : ℕ) (u : Upstream)
    → rr.ptr + count_if is_healthy us < usize_max
    → get_elem? us i ≡ some u
    → is_healthy u ≡ true
    → (k : ℕ) × (k < count_if is_healthy us)
      × (nth_call k rr us ≡ i)
      × ((j : ℕ) → j < count_if is_healthy us → nth_call j rr us ≡ i → j ≡ k)
nth_call_once rr us i u h g healthy = (
  k,
  bound,
  nth_call_lem k rr us (omega (arith, bound))
      ∙ (pick_iff us (rr.ptr + k) i u g healthy).1 (mod-distance rr.ptr n (rank us i) below),
  λ j lt e. mod_once rr.ptr n j k lt bound (
      (pick_iff us (rr.ptr + j) i u g healthy).0 (sym (nth_call_lem j rr us (omega arith)) ∙ e)
      ∙ sym (mod-distance rr.ptr n (rank us i) below)),
)
  where
    n : ℕ
    n = count_if is_healthy us

    below : rank us i < n
    below = rank-lt us i g healthy

    k : ℕ
    k = distance rr.ptr n (rank us i)

    bound : k < n
    bound = distance-lt rr.ptr n (rank us i) below
