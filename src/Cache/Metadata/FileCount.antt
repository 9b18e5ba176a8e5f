-- ===== src/Cache/Metadata/FileCount.antt =====
-- The count of the file store in any interleaving of stores, lookups and evictions.
use rust_rpxy.Common.{
  ◌+◌, ◌≡◌, refl, [], get_elem?, length, count_if, arith, inl, inr, Option-cases,
}
use rust_rpxy.Cache.Metadata.{
  file, on_memory, LruCache, World, Event, creates, abandons, stores_file, stores_on_memory, pushes,
  push_fails, looks_up, evicts, removes, apply_event, start,
}
use rust_rpxy.Cache.Metadata.Invariant.{
  LruLaws, is_file, Made, Room, Reaches, started, stepped, Inv, creates_file-Inv, abandons-Inv,
  removes-Inv, push_fails-Inv,
}
use rust_rpxy.Cache.Metadata.Moves.{looks_up-Inv, evicts-Inv, pushes-Inv}
use rust_rpxy.Cache.Metadata.Creation.{made_with, stores-Inv, stores_on_memory-Inv}

module _ {S : Type 0} (lru : LruCache S) (laws : LruLaws lru) where
  apply_event-Inv :
      (made : Made) (w : World S) (e : Event)
      → Inv lru made w
      → Room w
      → (made' : Made) × Inv lru made' (apply_event lru w e)
  unfolding apply_event
  apply_event-Inv made w creates inv room = (made, creates_file-Inv lru made w inv room)
  apply_event-Inv made w (abandons i) inv room = (made, abandons-Inv lru made w i inv)
  apply_event-Inv made w (stores_file i k) inv room = elim (Option-cases (get_elem? w.files i)) [
    | inl e ↦ (made, rw e inv)
    | inr (path, e) ↦ (
      made_with made w.cache_object_gen (file path),
      rw e (stores-Inv lru made w i k path e inv room),
    )
  ]
  apply_event-Inv made w (stores_on_memory k) inv room =
      (made_with made w.cache_object_gen on_memory, stores_on_memory-Inv lru made w k inv room)
  apply_event-Inv made w (pushes i) inv room = (made, pushes-Inv lru laws made w i _ refl inv)
  apply_event-Inv made w (push_fails i) inv room = (made, push_fails-Inv lru made w i _ refl inv)
  apply_event-Inv made w (looks_up k) inv room = (made, looks_up-Inv lru laws made w k inv)
  apply_event-Inv made w (evicts i) inv room = (made, evicts-Inv lru laws made w i _ refl inv)
  apply_event-Inv made w (removes i) inv room = (made, removes-Inv lru made w i _ refl inv)

  start-Inv : (empty : S) → lru.entries empty ≡ [] → Inv lru (λ n. on_memory) (start lru empty)
  unfolding start
  start-Inv empty e = record {
    exact = rw e refl;
    once = λ p. rw e (omega arith);
    fresh = λ p h. rw e refl;
    all_known = rw e refl;
  }

  Reaches-Inv :
      (empty : S) (w : World S)
      → lru.entries empty ≡ []
      → Reaches lru empty w
      → (made : Made) × Inv lru made w
  Reaches-Inv empty w e started = (λ n. on_memory, start-Inv empty e)
  Reaches-Inv empty _ e (stepped w event r room) =
      let (made, inv) = Reaches-Inv empty w e r in apply_event-Inv made w event inv room

  -- Whatever the interleaving of stores, lookups and evictions from an empty map, as long as no 64-bit
  -- counter wraps around, the file count is the number of file entries of the map, plus the files that are
  -- counted but not yet published, plus those that left the map and are not yet removed.
  pub file_count_exact :
      (empty : S) (w : World S)
      → lru.entries empty ≡ []
      → Reaches lru empty w
      → w.file_cnt
        ≡ count_if is_file (lru.entries w.lru) + count_if is_file w.publishing + length w.doomed
  file_count_exact empty w e r = let (made, inv) = Reaches-Inv empty w e r in inv.exact
