-- ===== src/Cache/Metadata/Creation.antt =====
-- The steps that make objects: what is stored at a generation stays known.
use rust_rpxy.Common.{
  ℕ, suc, ◌+◌, ◌≤◌, ◌≡◌, refl, ap, Bool, true, false, not, ◌&&◌, some, List, if◌then◌else◌, ◌==◌,
  ltb, ==_refl, lt→ltb, get_elem?, count_if, count_if-remove_at, count_if_mono, arith, Bool-cases,
  inl, inr,
}
use rust_rpxy.Cache.Metadata.{
  CacheFileOrOnMemory, file, on_memory, Entry, LruCache, World, stores, new_object,
}
use rust_rpxy.Cache.Metadata.Invariant.{
  one_if, target_eq, Made, strange, Room, Inv, incremented-suc,
}

abbrev pub made_with : Made → ℕ → CacheFileOrOnMemory → Made
made_with made g t n = if n == g then t else made n

later :
    (n g : ℕ) (x y : Bool)
    → (n == g) ≡ false
    → x ≡ y
    → not (ltb n (suc g) && x) ≡ true
    → not (ltb n g && y) ≡ true
later n g x y q e h = ground arith

before : (n g : ℕ) (y : Bool) → (n == g) ≡ true → not (ltb n g && y) ≡ true
before n g y q = ground arith

-- What is known at a generation stays known when the next object is made.
known_later :
    (made : Made) (g : ℕ) (t : CacheFileOrOnMemory) (e : Entry)
    → strange (made_with made g t) (suc g) e ≡ true
    → strange made g e ≡ true
known_later made g t (k, o) h = elim (Bool-cases (o.generation == g)) [
  | inl q ↦ before o.generation g _ q
  | inr q ↦
      later o.generation g _ _ q
        (ap (λ b. target_eq o.target (if b then t else made o.generation)) q) h
]

target_eq_refl : (t : CacheFileOrOnMemory) → target_eq t t ≡ true
target_eq_refl (file p) = ==_refl p
target_eq_refl on_memory = refl

made_is_known :
    (made : Made) (g k : ℕ) (t : CacheFileOrOnMemory)
    → strange (made_with made g t) (suc g) (k, record { target = t; generation = g }) ≡ false
made_is_known made g k t = rw (lt→ltb g (suc g) (omega arith), ==_refl g, target_eq_refl t) refl

made_strange :
    (made : Made) (g : ℕ) (t : CacheFileOrOnMemory) (es : List Entry)
    → count_if (strange (made_with made g t) (suc g)) es ≤ count_if (strange made g) es
made_strange made g t es = count_if_mono _ _ (known_later made g t) es

module _ {S : Type 0} (lru : LruCache S) where
  -- The object that is made is the one known at its generation.
  new-all_known :
      (made : Made) (w : World S) (k bound : ℕ) (t : CacheFileOrOnMemory)
      → bound ≡ suc w.cache_object_gen
      → Inv lru made w
      → let f = strange (made_with made w.cache_object_gen t) bound in
        count_if f (lru.entries w.lru)
          + (one_if (f (k, record { target = t; generation = w.cache_object_gen }))
              + count_if f w.publishing)
          + count_if f w.snapshots
        ≡ 0
  new-all_known made w k bound t e inv =
      let g = w.cache_object_gen in
      rw e (
        omega (
          arith,
          inv.all_known,
          ap one_if (made_is_known made g k t),
          made_strange made g t (lru.entries w.lru),
          made_strange made g t w.publishing,
          made_strange made g t w.snapshots,
        ))

  pub stores-Inv :
      (made : Made) (w : World S) (i k path : ℕ)
      → get_elem? w.files i ≡ some path
      → Inv lru made w
      → Room w
      → Inv lru (made_with made w.cache_object_gen (file path)) (stores lru w i k (some path))
  unfolding stores
  stores-Inv made w i k path e inv room = record {
    exact = omega (arith, inv.exact, incremented-suc w.file_cnt room.counts);
    once = λ p. omega (arith, inv.once p, count_if-remove_at (λ q. p == q) w.files i e);
    fresh = λ p h. omega (arith, inv.fresh p h, count_if-remove_at (λ q. p == q) w.files i e);
    all_known =
        new-all_known made w k _ (file path) (incremented-suc w.cache_object_gen room.generations)
          inv;
  }

  pub stores_on_memory-Inv :
      (made : Made) (w : World S) (k : ℕ)
      → Inv lru made w
      → Room w
      → Inv lru (made_with made w.cache_object_gen on_memory) (new_object lru w k on_memory)
  unfolding new_object
  stores_on_memory-Inv made w k inv room = record {
    exact = omega (arith, inv.exact);
    once = λ p. omega (arith, inv.once p);
    fresh = λ p h. omega (arith, inv.fresh p h);
    all_known =
        new-all_known made w k _ on_memory (incremented-suc w.cache_object_gen room.generations)
          inv;
  }
