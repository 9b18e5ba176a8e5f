-- ===== src/LoadBalance/Available.antt =====
-- The index choices: bounds under health changes, and the rank of the chosen upstream.
use rust_rpxy.Common.{
  ℕ, zero, suc, ◌+◌, ◌-◌, ◌%◌, ◌<◌, ◌≡◌, ◌↔◌, ◌⊎◌, inl, inr, refl, sym, ◌∙◌, ap, subst, true, false,
  none, some, List, [], ◌∷◌, arith, if◌then◌else◌, length, any, count_if, count_if-le, get_elem?,
  take, lt_of_get_elem?, Bool-cases, Option-cases,
}
use rust_rpxy.Upstream.{Upstream, is_healthy, has_health_state}
use rust_rpxy.LoadBalance.{
  position, healthy_index_count, nth_healthy, pick_nth_available_index, first_available_index,
}

nth_healthy-lt :
    (off : ℕ) (us : List Upstream) (t i : ℕ) → nth_healthy off us t ≡ some i → i < off + length us
unfolding nth_healthy
nth_healthy-lt off [] t i e = absurd (cc)
nth_healthy-lt off (u ∷ us) t i e =
    ground (arith, nth_healthy-lt (off + 1) us t i, nth_healthy-lt (off + 1) us (t - 1) i)

-- For any upstreams and whatever changes in between, the index is one of the list's.
pub pick-lt :
    (now later : List Upstream) (nth : ℕ)
    → 0 < length now
    → length later ≡ length now
    → pick_nth_available_index now later nth < length now
unfolding pick_nth_available_index
pick-lt now later nth h e =
    elim (Option-cases (nth_healthy 0 later (nth % healthy_index_count now))) [
      | inl n ↦ ground arith
      | inr (i, s) ↦ ground (arith, nth_healthy-lt 0 later (nth % healthy_index_count now) i s)
    ]

abbrev pub rank : List Upstream → ℕ → ℕ
rank us i = count_if is_healthy (take i us)

nth_healthy-rank :
    (off : ℕ) (us : List Upstream) (i : ℕ) {u : Upstream}
    → get_elem? us i ≡ some u
    → is_healthy u ≡ true
    → nth_healthy off us (rank us i) ≡ some (off + i)
unfolding nth_healthy
nth_healthy-rank off [] i e h = absurd (cc)
nth_healthy-rank off (x ∷ us) zero e h = ground arith
nth_healthy-rank off (x ∷ us) (suc i) e h = ground (arith, nth_healthy-rank (off + 1) us i e h)

-- A position of a healthy upstream, with its rank.
pub record Ranked (us : List Upstream) (t : ℕ) : Type 0 where
  pub index : ℕ
  pub upstream : Upstream
  pub at : get_elem? us index ≡ some upstream
  pub healthy : is_healthy upstream ≡ true
  pub ranked : rank us index ≡ t

first-Ranked : (x : Upstream) (us : List Upstream) → is_healthy x ≡ true → Ranked (x ∷ us) 0
first-Ranked x us e = record { index = 0; upstream = x; at = refl; healthy = e; ranked = refl }

later-Ranked :
    (x : Upstream) (us : List Upstream) (t : ℕ)
    → Ranked us t
    → Ranked (x ∷ us) ((if is_healthy x then 1 else 0) + t)
later-Ranked x us t r = record {
  index = suc r.index;
  upstream = r.upstream;
  at = r.at;
  healthy = r.healthy;
  ranked = ap (λ k. (if is_healthy x then 1 else 0) + k) r.ranked;
}

rank-Ranked : (us : List Upstream) (t : ℕ) → t < count_if is_healthy us → Ranked us t
rank-Ranked [] t h = absurd (omega arith)
rank-Ranked (x ∷ us) zero h = elim (Bool-cases (is_healthy x)) [
  | inl e ↦ first-Ranked x us e
  | inr e ↦
      subst (Ranked (x ∷ us)) (ground arith) (later-Ranked x us 0 (rank-Ranked us 0 (ground arith)))
]
rank-Ranked (x ∷ us) (suc t) h = elim (Bool-cases (is_healthy x)) [
  | inl e ↦
      subst (Ranked (x ∷ us)) (ground arith) (later-Ranked x us t (rank-Ranked us t (ground arith)))
  | inr e ↦
      subst (Ranked (x ∷ us)) (ground arith)
        (later-Ranked x us (suc t) (rank-Ranked us (suc t) (ground arith)))
]

-- Where all are healthy a rank is an index.
rank_all :
    (us : List Upstream) (i : ℕ)
    → count_if is_healthy us ≡ length us
    → i < length us
    → rank us i ≡ i
rank_all [] i e h = absurd (omega arith)
rank_all (x ∷ us) zero e h = refl
rank_all (x ∷ us) (suc i) e h = ground (arith, rank_all us i, count_if-le is_healthy us)

count-untracked :
    (us : List Upstream) → any has_health_state us ≡ false → count_if is_healthy us ≡ length us
unfolding is_healthy has_health_state
count-untracked [] e = refl
count-untracked (x ∷ us) e = ground (arith, count-untracked us)

pub get_elem?-healthy_count :
    (us : List Upstream) (i : ℕ) {u : Upstream}
    → get_elem? us i ≡ some u
    → is_healthy u ≡ true
    → 0 < count_if is_healthy us
get_elem?-healthy_count [] i e h = absurd (cc)
get_elem?-healthy_count (x ∷ us) zero e h = ground arith
get_elem?-healthy_count (x ∷ us) (suc i) e h = ground (arith, get_elem?-healthy_count us i e h)

pick-Ranked :
    (us : List Upstream) (nth : ℕ) (r : Ranked us (nth % count_if is_healthy us))
    → pick_nth_available_index us us nth ≡ r.index
unfolding pick_nth_available_index
pick-Ranked us nth r = ground (
  arith,
  r.ranked,
  nth_healthy-rank 0 us r.index r.at r.healthy,
  rank_all us r.index,
  lt_of_get_elem? us r.index r.at,
  count-untracked us,
  get_elem?-healthy_count us r.index r.at r.healthy,
)

pub rank-lt :
    (us : List Upstream) (i : ℕ) {u : Upstream}
    → get_elem? us i ≡ some u
    → is_healthy u ≡ true
    → rank us i < count_if is_healthy us
rank-lt [] i e h = absurd (cc)
rank-lt (x ∷ us) zero e h = ground arith
rank-lt (x ∷ us) (suc i) e h = ground (arith, rank-lt us i e h)

-- While the flags do not change, a healthy upstream is chosen for exactly the numbers whose remainder
-- modulo the number of healthy upstreams is its rank among them.
pub pick_iff :
    (us : List Upstream) (nth i : ℕ) (u : Upstream)
    → get_elem? us i ≡ some u
    → is_healthy u ≡ true
    → (pick_nth_available_index us us nth ≡ i) ↔ (nth % count_if is_healthy us ≡ rank us i)
pick_iff us nth i u e h = (
  λ p.
      let r = rank-Ranked us (nth % count_if is_healthy us) (bound) in
      sym (r.ranked) ∙ ap (rank us) (sym (pick-Ranked us nth r) ∙ p),
  λ p. pick-Ranked us nth (record { index = i; upstream = u; at = e; healthy = h; ranked = sym p }),
)
  where
    bound : nth % count_if is_healthy us < count_if is_healthy us
    bound = omega (arith, get_elem?-healthy_count us i e h)

position-lowest :
    (off : ℕ) (us : List Upstream)
    → ((position off us ≡ none) × (count_if is_healthy us ≡ 0))
      ⊎ ((i : ℕ) × (u : Upstream) × (position off us ≡ some (off + i))
          × (get_elem? us i ≡ some u)
          × (is_healthy u ≡ true)
          × (rank us i ≡ 0))
unfolding position
position-lowest off [] = inl (refl, refl)
position-lowest off (x ∷ us) = elim (Bool-cases (is_healthy x)) [
  | inl e ↦ inr (0, x, rw e (ap some (omega arith)), refl, e, refl)
  | inr e ↦ elim (position-lowest (off + 1) us) [
    | inl (p, c) ↦ inl (rw e p, rw e (omega arith))
    | inr (i, u, p, g, h, r) ↦
        inr (suc i, u, rw e (p ∙ ap some (omega arith)), g, h, rw e (omega arith))
  ]
]

-- While the flags do not change, the first available index is that of a healthy upstream with no
-- healthy one before it, or 0 if there is none.
pub first_available_index-lowest :
    (us : List Upstream)
    → ((count_if is_healthy us ≡ 0) × (first_available_index us us ≡ 0))
      ⊎ ((u : Upstream) × (get_elem? us (first_available_index us us) ≡ some u)
          × (is_healthy u ≡ true)
          × (rank us (first_available_index us us) ≡ 0))
unfolding first_available_index
first_available_index-lowest [] = inl (refl, refl)
first_available_index-lowest (x ∷ us) = elim (Bool-cases (any has_health_state (x ∷ us))) [
  | inl e ↦ elim (position-lowest 0 (x ∷ us)) [
    | inl (p, c) ↦ inl (c, ground arith)
    | inr (i, u, p, g, h, r) ↦ found e i u p g h r
  ]
  | inr e ↦ inr (x, ap (get_elem? (x ∷ us)) (zeroth e), tracked e, ap (rank (x ∷ us)) (zeroth e))
]
  where
    tracked : any has_health_state (x ∷ us) ≡ false → is_healthy x ≡ true
    tracked e = ground (arith, count-untracked (x ∷ us) e, count_if-le is_healthy us)

    zeroth : any has_health_state (x ∷ us) ≡ false → first_available_index (x ∷ us) (x ∷ us) ≡ 0
    zeroth e = ground arith

    found :
        any has_health_state (x ∷ us) ≡ true
        → (i : ℕ) (u : Upstream) → position 0 (x ∷ us) ≡ some (0 + i)
        → get_elem? (x ∷ us) i ≡ some u
        → is_healthy u ≡ true
        → rank (x ∷ us) i ≡ 0
        → ((count_if is_healthy (x ∷ us) ≡ 0) × (first_available_index (x ∷ us) (x ∷ us) ≡ 0))
          ⊎ ((u : Upstream) × (get_elem? (x ∷ us) (first_available_index (x ∷ us) (x ∷ us))
                ≡ some u)
              × (is_healthy u ≡ true)
              × (rank (x ∷ us) (first_available_index (x ∷ us) (x ∷ us)) ≡ 0))
    found e i u p g h r =
        let v : first_available_index (x ∷ us) (x ∷ us) ≡ i = ground arith in
        inr (u, ap (get_elem? (x ∷ us)) v ∙ g, h, ap (rank (x ∷ us)) v ∙ r)
