-- ===== src/Cache/Metadata/Invariant.antt =====
-- What the stores, lookups and evictions keep of the metadata, whatever their interleaving; the steps that
-- do not move entries of the map.
use rust_rpxy.Common.{
  ℕ, suc, ◌+◌, ◌≤◌, ◌<◌, ◌≡◌, subst, Bool, true, false, not, ◌&&◌, Option, none, some, List,
  if◌then◌else◌, ◌==◌, ltb, get_elem?, length, count_if, count_if-remove_at, count_if-remove_at_le,
  length-remove_at, usize_mod, arith, Bool-cases, inl, inr,
}
use rust_rpxy.Cache.Metadata.{
  CacheFileOrOnMemory, file, on_memory, CacheObject, Entry, LruCache, World, Event, abandons,
  incremented, doom, same_path, apply_event, start, creates_file, roll_back, remove_file,
}

abbrev pub one_if : Bool → ℕ
one_if b = if b then 1 else 0

abbrev pub count_option : (Entry → Bool) → Option Entry → ℕ
count_option f none = 0
count_option f (some e) = one_if (f e)

-- What the documentation of the lru crate says of its operations, for the entries that pass any test.
pub record LruLaws {S : Type 0} (lru : LruCache S) : Type 0 where
  pub push_moves :
      (f : Entry → Bool) (s : S) (k : ℕ) (o : CacheObject)
      → count_if f (lru.entries (lru.push s k o).0) + count_option f (lru.push s k o).1
        ≡ count_if f (lru.entries s) + one_if (f (k, o))
  pub push_displaces :
      (f : Entry → Bool) (s : S) (k : ℕ) (o : CacheObject)
      → count_option f (lru.push s k o).1 ≤ count_if f (lru.entries s)
  pub get_keeps :
      (f : Entry → Bool) (s : S) (k : ℕ)
      → count_if f (lru.entries (lru.get s k).0) ≡ count_if f (lru.entries s)
  pub get_finds :
      (f : Entry → Bool) (s : S) (k : ℕ) (o : CacheObject)
      → (lru.get s k).1 ≡ some o
      → one_if (f (k, o)) ≤ count_if f (lru.entries s)
  pub pop_takes :
      (f : Entry → Bool) (s : S) (k : ℕ) (o : CacheObject)
      → lru.peek s k ≡ some o
      → count_if f (lru.entries (lru.pop_entry s k).0) + one_if (f (k, o))
        ≡ count_if f (lru.entries s)

abbrev pub target_is_file : CacheFileOrOnMemory → Bool
target_is_file (file path) = true
target_is_file on_memory = false

abbrev pub is_file : Entry → Bool
is_file (key, o) = target_is_file o.target

abbrev pub has_path : ℕ → Entry → Bool
has_path path (key, o) = same_path path o.target

abbrev pub target_eq : CacheFileOrOnMemory → CacheFileOrOnMemory → Bool
target_eq (file a) (file b) = a == b
target_eq on_memory on_memory = true
target_eq _ _ = false

-- What was stored as the generation.
abbrev pub Made : Type 0
Made = ℕ → CacheFileOrOnMemory

abbrev pub known : Made → ℕ → Entry → Bool
known made bound (key, o) = ltb o.generation bound && target_eq o.target (made o.generation)

abbrev pub strange : Made → ℕ → Entry → Bool
strange made bound e = not (known made bound e)

pub length-doom :
    (t : CacheFileOrOnMemory) (doomed : List ℕ)
    → length (doom t doomed) ≡ length doomed + one_if (target_is_file t)
length-doom (file p) doomed = omega arith
length-doom on_memory doomed = omega arith

pub incremented-suc : (n : ℕ) → suc n < usize_mod → incremented n ≡ suc n
incremented-suc n h = omega arith

-- A new name, where none from `seq` on is in use.
named_once : (p seq n c : ℕ) → n + c ≤ 1 → (seq ≤ p → n + c ≡ 0) → n + (one_if (p == seq) + c) ≤ 1
named_once p seq n c le zero_from = elim (Bool-cases (p == seq)) [
  | inl e ↦ ground (arith, zero_from (ground arith))
  | inr e ↦ ground arith
]

named_fresh : (p seq n c : ℕ) → suc seq ≤ p → n + c ≡ 0 → n + (one_if (p == seq) + c) ≡ 0
named_fresh p seq n c h z = ground arith

-- No counter is at its end.
pub record Room {S : Type 0} (w : World S) : Type 0 where
  pub counts : suc w.file_cnt < usize_mod
  pub names : suc w.cache_file_seq < usize_mod
  pub generations : suc w.cache_object_gen < usize_mod

module _ {S : Type 0} (lru : LruCache S) where
  -- The worlds that some interleaving reaches from an empty map.
  pub data Reaches (empty : S) : World S → Type 0 where
    started : Reaches empty (start lru empty)
    stepped :
        (w : World S) (e : Event) → Reaches empty w → Room w → Reaches empty (apply_event lru w e)

  abbrev pub paths : ℕ → World S → ℕ
  paths p w =
      count_if (has_path p) (lru.entries w.lru)
      + count_if (has_path p) w.publishing
      + count_if (λ q. p == q) w.files

  pub record Inv (made : Made) (w : World S) : Type 0 where
    pub exact :
        w.file_cnt
        ≡ count_if is_file (lru.entries w.lru) + count_if is_file w.publishing + length w.doomed
    pub once : (p : ℕ) → paths p w ≤ 1
    pub fresh : (p : ℕ) → w.cache_file_seq ≤ p → paths p w ≡ 0
    pub all_known :
        count_if (strange made w.cache_object_gen) (lru.entries w.lru)
          + count_if (strange made w.cache_object_gen) w.publishing
          + count_if (strange made w.cache_object_gen) w.snapshots
        ≡ 0

  pub creates_file-Inv :
      (made : Made) (w : World S) → Inv made w → Room w → Inv made (creates_file lru w)
  unfolding creates_file
  creates_file-Inv made w inv room = record {
    exact = inv.exact;
    once = λ p. named_once p w.cache_file_seq _ _ (inv.once p) (inv.fresh p);
    fresh = λ p h.
        let h' = subst (λ n. n ≤ p) (incremented-suc w.cache_file_seq room.names) h in
        named_fresh p w.cache_file_seq _ _ h' (inv.fresh p (omega (arith, h')));
    all_known = inv.all_known;
  }

  pub abandons-Inv :
      (made : Made) (w : World S) (i : ℕ) → Inv made w → Inv made (apply_event lru w (abandons i))
  unfolding apply_event
  abandons-Inv made w i inv = record {
    exact = inv.exact;
    once = λ p. omega (arith, inv.once p, count_if-remove_at_le (λ q. p == q) w.files i);
    fresh = λ p h. omega (arith, inv.fresh p h, count_if-remove_at_le (λ q. p == q) w.files i);
    all_known = inv.all_known;
  }

  pub removes-Inv :
      (made : Made) (w : World S) (i : ℕ) (o : Option ℕ)
      → get_elem? w.doomed i ≡ o
      → Inv made w
      → Inv made (remove_file lru w i o)
  unfolding remove_file
  removes-Inv made w i none e inv = inv
  removes-Inv made w i (some path) e inv = record {
    exact = omega (arith, inv.exact, length-remove_at w.doomed i e);
    once = inv.once;
    fresh = inv.fresh;
    all_known = inv.all_known;
  }

  pub push_fails-Inv :
      (made : Made) (w : World S) (i : ℕ) (o : Option Entry)
      → get_elem? w.publishing i ≡ o
      → Inv made w
      → Inv made (roll_back lru w i o)
  unfolding roll_back
  push_fails-Inv made w i none e inv = inv
  push_fails-Inv made w i (some (k, o)) e inv = record {
    exact = omega (
      arith,
      inv.exact,
      count_if-remove_at is_file w.publishing i e,
      length-doom o.target w.doomed,
    );
    once = λ p. omega (arith, inv.once p, count_if-remove_at (has_path p) w.publishing i e);
    fresh = λ p h. omega (arith, inv.fresh p h, count_if-remove_at (has_path p) w.publishing i e);
    all_known = omega (
      arith,
      inv.all_known,
      count_if-remove_at (strange made w.cache_object_gen) w.publishing i e,
    );
  }
