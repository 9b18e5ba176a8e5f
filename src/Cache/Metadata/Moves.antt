-- ===== src/Cache/Metadata/Moves.antt =====
-- The steps that move entries of the map: lookups, evictions and publications.
use rust_rpxy.Common.{
  ℕ, ◌+◌, ◌≤◌, ◌≡◌, refl, ap, sym, ◌∙◌, subst, Bool, true, false, not, ◌&&◌, Option, none, some,
  List, ◌==◌, ltb, ==_iff, ==_refl, get_elem?, remove_at, length, count_if, count_if-remove_at,
  arith, Bool-cases, inl, inr,
}
use rust_rpxy.Cache.Metadata.{
  CacheFileOrOnMemory, file, on_memory, CacheObject, Entry, LruCache, World, doom, same_path,
  doom_unless, doom_displaced, push_entry, get_entry, evict_snapshot, cloned,
}
use rust_rpxy.Cache.Metadata.Invariant.{
  one_if, count_option, LruLaws, target_is_file, is_file, has_path, target_eq, Made, strange, Inv,
  length-doom,
}

target_eq-file :
    (a b : CacheFileOrOnMemory) → target_eq a b ≡ true → target_is_file a ≡ target_is_file b
target_eq-file (file p) (file q) h = refl
target_eq-file on_memory on_memory h = refl
target_eq-file (file p) on_memory h = cc
target_eq-file on_memory (file q) h = cc

not_strange :
    (made : Made) (bound k : ℕ) (o : CacheObject)
    → strange made bound (k, o) ≡ false
    → target_is_file o.target ≡ target_is_file (made o.generation)
not_strange made bound k o h =
    target_eq-file o.target (made o.generation)
      (second (ltb o.generation bound) (target_eq o.target (made o.generation)) h)
  where
    second : (a b : Bool) → not (a && b) ≡ false → b ≡ true
    second a b h = ground arith

-- An object of the map with the generation of a snapshot is that snapshot.
same_target :
    (made : Made) (bound k : ℕ) (o v : CacheObject)
    → strange made bound (k, o) ≡ false
    → strange made bound (k, v) ≡ false
    → v.generation == o.generation ≡ true
    → target_is_file v.target ≡ target_is_file o.target
same_target made bound k o v a b e =
    not_strange made bound k v b
    ∙ ap (λ g. target_is_file (made g)) ((==_iff v.generation o.generation).0 e)
    ∙ sym (not_strange made bound k o a)

one_if_zero : (b : Bool) (m n : ℕ) → m + one_if b ≡ n → n ≡ 0 → b ≡ false
one_if_zero false m n h z = refl
one_if_zero true m n h z = absurd (omega arith)

length-doom_unless :
    (new old : CacheFileOrOnMemory) (doomed : List ℕ)
    → ((p : ℕ) → new ≡ file p → one_if (same_path p old) ≡ 0)
    → length (doom_unless new old doomed) ≡ length doomed + one_if (target_is_file old)
length-doom_unless new on_memory doomed h = omega arith
length-doom_unless on_memory (file old) doomed h = omega arith
length-doom_unless (file new) (file old) doomed h = ground (arith, h new refl)

length-doom_displaced :
    (new : CacheFileOrOnMemory) (d : Option Entry) (doomed : List ℕ)
    → ((p : ℕ) → new ≡ file p → count_option (has_path p) d ≡ 0)
    → length (doom_displaced new d doomed) ≡ length doomed + count_option is_file d
length-doom_displaced new none doomed h = omega arith
length-doom_displaced new (some (k, old)) doomed h = length-doom_unless new old.target doomed h

own_path : (t : CacheFileOrOnMemory) (p : ℕ) → t ≡ file p → same_path p t ≡ true
own_path t p e = subst (λ x. same_path p x ≡ true) (sym e) (==_refl p)

module _ {S : Type 0} (lru : LruCache S) (laws : LruLaws lru) where
  cloned_known :
      (f : Entry → Bool) (w : World S) (k : ℕ) (o : Option CacheObject)
      → (lru.get w.lru k).1 ≡ o
      → count_if f (cloned lru k o w.snapshots)
        ≤ count_if f w.snapshots + count_if f (lru.entries w.lru)
  unfolding cloned
  cloned_known f w k none e = omega arith
  cloned_known f w k (some o) e = omega (arith, laws.get_finds f w.lru k o e)

  pub looks_up-Inv :
      (made : Made) (w : World S) (k : ℕ) → Inv lru made w → Inv lru made (get_entry lru w k)
  unfolding get_entry
  looks_up-Inv made w k inv = record {
    exact = omega (arith, inv.exact, laws.get_keeps is_file w.lru k);
    once = λ p. omega (arith, inv.once p, laws.get_keeps (has_path p) w.lru k);
    fresh = λ p h. omega (arith, inv.fresh p h, laws.get_keeps (has_path p) w.lru k);
    all_known =
        let f = strange made w.cache_object_gen in
        omega (arith, inv.all_known, laws.get_keeps f w.lru k, cloned_known f w k _ refl);
  }

  evicted-Inv :
      (made : Made) (w : World S) (i k : ℕ) (o v : CacheObject)
      → get_elem? w.snapshots i ≡ some (k, o)
      → lru.peek w.lru k ≡ some v
      → v.generation == o.generation ≡ true
      → Inv lru made w
      → Inv lru made (record w {
        lru = (lru.pop_entry w.lru k).0;
        cnt = length (lru.entries (lru.pop_entry w.lru k).0);
        snapshots = remove_at w.snapshots i;
        doomed = doom o.target w.doomed;
      })
  evicted-Inv made w i k o v e p g inv = record {
    exact = omega (
      arith,
      inv.exact,
      laws.pop_takes is_file w.lru k v p,
      length-doom o.target w.doomed,
      ap one_if (same_target made w.cache_object_gen k o v (sn) (en) g),
    );
    once = λ q. omega (arith, inv.once q, laws.pop_takes (has_path q) w.lru k v p);
    fresh = λ q h. omega (arith, inv.fresh q h, laws.pop_takes (has_path q) w.lru k v p);
    all_known =
        omega (
          arith,
          inv.all_known,
          laws.pop_takes f w.lru k v p,
          count_if-remove_at f w.snapshots i e,
        );
  }
    where
      f : Entry → Bool
      f = strange made w.cache_object_gen

      en : f (k, v) ≡ false
      en = one_if_zero (f (k, v)) _ _ (laws.pop_takes f w.lru k v p) (omega (arith, inv.all_known))

      sn : f (k, o) ≡ false
      sn =
          one_if_zero (f (k, o)) (count_if f (remove_at w.snapshots i)) (count_if f w.snapshots)
            (omega (arith, count_if-remove_at f w.snapshots i e)) (omega (arith, inv.all_known))

  pub evicts-Inv :
      (made : Made) (w : World S) (i : ℕ) (o : Option Entry)
      → get_elem? w.snapshots i ≡ o
      → Inv lru made w
      → Inv lru made (evict_snapshot lru w i o)
  unfolding evict_snapshot
  evicts-Inv made w i none e inv = inv
  evicts-Inv made w i (some (k, o)) e inv = go (lru.peek w.lru k) refl
    where
      missed : Inv lru made (record w { snapshots = remove_at w.snapshots i })
      missed = record {
        exact = inv.exact;
        once = inv.once;
        fresh = inv.fresh;
        all_known = omega (
          arith,
          inv.all_known,
          count_if-remove_at (strange made w.cache_object_gen) w.snapshots i e,
        );
      }

      go :
          (m : Option CacheObject)
          → lru.peek w.lru k ≡ m
          → Inv lru made (evict_snapshot lru w i (some (k, o)))
      go none p = rw p missed
      go (some v) p = elim (Bool-cases (v.generation == o.generation)) [
        | inl g ↦ rw (p, g) (evicted-Inv made w i k o v e p g inv)
        | inr g ↦ rw (p, g) missed
      ]

  pub pushes-Inv :
      (made : Made) (w : World S) (i : ℕ) (o : Option Entry)
      → get_elem? w.publishing i ≡ o
      → Inv lru made w
      → Inv lru made (push_entry lru w i o)
  unfolding push_entry
  pushes-Inv made w i none e inv = inv
  pushes-Inv made w i (some (k, o)) e inv = record {
    exact = omega (
      arith,
      inv.exact,
      laws.push_moves is_file w.lru k o,
      count_if-remove_at is_file w.publishing i e,
      length-doom_displaced o.target (lru.push w.lru k o).1 w.doomed displaced_other,
    );
    once = λ p. omega (
      arith,
      inv.once p,
      laws.push_moves (has_path p) w.lru k o,
      count_if-remove_at (has_path p) w.publishing i e,
    );
    fresh = λ p h. omega (
      arith,
      inv.fresh p h,
      laws.push_moves (has_path p) w.lru k o,
      count_if-remove_at (has_path p) w.publishing i e,
    );
    all_known = omega (
      arith,
      inv.all_known,
      laws.push_moves (strange made w.cache_object_gen) w.lru k o,
      count_if-remove_at (strange made w.cache_object_gen) w.publishing i e,
    );
  }
    where
      displaced_other :
          (p : ℕ) → o.target ≡ file p → count_option (has_path p) (lru.push w.lru k o).1 ≡ 0
      displaced_other p q = omega (
        arith,
        inv.once p,
        laws.push_displaces (has_path p) w.lru k o,
        count_if-remove_at (has_path p) w.publishing i e,
        ap one_if (own_path o.target p q),
      )
