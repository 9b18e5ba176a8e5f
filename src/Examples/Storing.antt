-- ===== src/Examples/Storing.antt =====
-- The cache metadata at a concrete run: rpxy-lib/src/forwarder/cache/cache_main.rs, with a map of one entry.
use rust_rpxy.Common.{
  ℕ, ◌+◌, ◌≡◌, ◌≤◌, refl, Bool, true, false, Option, none, some, List, [], ◌∷◌, if◌then◌else◌, ◌==◌,
  arith, count_if, length, suc, ltb, ltb→lt, usize_mod, and-elim, ◌&&◌, ==_iff, ==_refl, some_inj,
  subst, sym,
}
use rust_rpxy.Cache.Metadata.{
  CacheObject, Entry, LruCache, World, Event, creates, stores_file, pushes, apply_event, start,
}
use rust_rpxy.Cache.Metadata.Invariant.{
  LruLaws, Room, Reaches, started, stepped, one_if, count_option, is_file,
}
use rust_rpxy.Cache.Metadata.FileCount.{file_count_exact}

abbrev one_entry : Option Entry → List Entry
one_entry none = []
one_entry (some e) = e ∷ []

abbrev find : ℕ → Option Entry → Option CacheObject
find k none = none
find k (some (k', o)) = if k == k' then some o else none

abbrev pop : ℕ → Option Entry → Option Entry × Option Entry
pop k none = (none, none)
pop k (some (k', o)) = if k == k' then (none, some (k', o)) else (some (k', o), none)

abbrev single : LruCache (Option Entry)
single = record {
  entries = one_entry;
  push = λ s k o. (some (k, o), s);
  get = λ s k. (s, find k s);
  peek = λ s k. find k s;
  pop_entry = λ s k. pop k s;
}

push_moves :
    (f : Entry → Bool) (s : Option Entry) (k : ℕ) (o : CacheObject)
    → count_if f ((k, o) ∷ []) + count_option f s ≡ count_if f (one_entry s) + one_if (f (k, o))
push_moves f none k o = omega arith
push_moves f (some e) k o = omega arith

displaced_le : (f : Entry → Bool) (s : Option Entry) → count_option f s ≤ count_if f (one_entry s)
displaced_le f none = omega arith
displaced_le f (some e) = omega arith

pick :
    (b : Bool) (k k' : ℕ) (v o : CacheObject)
    → (k == k') ≡ b
    → (if b then some v else none) ≡ some o
    → ◌≡◌ {A = Option Entry} (some (k', v)) (some (k, o))
pick true k k' v o e h = let p = (==_iff k k').0 e in let q = some_inj h in cc
pick false k k' v o e h = absurd (cc)

found : (s : Option Entry) (k : ℕ) (o : CacheObject) → find k s ≡ some o → s ≡ some (k, o)
found none k o h = absurd (cc)
found (some (k', v)) k o h = pick (k == k') k k' v o refl h

found_le :
    (f : Entry → Bool) (s : Option Entry) (k : ℕ) (o : CacheObject)
    → find k s ≡ some o
    → one_if (f (k, o)) ≤ count_if f (one_entry s)
found_le f s k o h =
    subst (λ t. one_if (f (k, o)) ≤ count_if f (one_entry t)) (sym (found s k o h)) (omega arith)

popped :
    (f : Entry → Bool) (k : ℕ) (o : CacheObject)
    → count_if f (one_entry (pop k (some (k, o))).0) + one_if (f (k, o)) ≡ one_if (f (k, o)) + 0
popped f k o = rw (==_refl k) (omega arith)

pop_takes :
    (f : Entry → Bool) (s : Option Entry) (k : ℕ) (o : CacheObject)
    → find k s ≡ some o
    → count_if f (one_entry (pop k s).0) + one_if (f (k, o)) ≡ count_if f (one_entry s)
pop_takes f s k o h =
    subst (λ t. count_if f (one_entry (pop k t).0) + one_if (f (k, o)) ≡ count_if f (one_entry t))
      (sym (found s k o h)) (popped f k o)

single_laws : LruLaws single
single_laws = record {
  push_moves = push_moves;
  push_displaces = λ f s k o. displaced_le f s;
  get_keeps = λ f s k. refl;
  get_finds = found_le;
  pop_takes = pop_takes;
}

-- Two files are stored, the second displaces the first, whose removal is under way.
abbrev history : List Event
history = creates ∷ creates ∷ stores_file 1 7 ∷ pushes 0 ∷ stores_file 0 8 ∷ pushes 0 ∷ []

abbrev run : World (Option Entry) → List Event → World (Option Entry)
run w [] = w
run w (e ∷ es) = run (apply_event single w e) es

abbrev busy : World (Option Entry)
busy = run (start single none) history

has_room : World (Option Entry) → Bool
has_room w =
    ltb (suc w.file_cnt) usize_mod
    && (ltb (suc w.cache_file_seq) usize_mod && ltb (suc w.cache_object_gen) usize_mod)

room : (w : World (Option Entry)) → has_room w ≡ true → Room w
unfolding has_room
room w h = record {
  counts = ltb→lt _ _ (and-elim h).0;
  names = ltb→lt _ _ (and-elim (and-elim h).1).0;
  generations = ltb→lt _ _ (and-elim (and-elim h).1).1;
}

all_have_room : World (Option Entry) → List Event → Bool
unfolding has_room
all_have_room w [] = true
all_have_room w (e ∷ es) = has_room w && all_have_room (apply_event single w e) es

runs :
    (w : World (Option Entry)) (es : List Event)
    → Reaches single none w
    → all_have_room w es ≡ true
    → Reaches single none (run w es)
unfolding all_have_room
runs w [] r h = r
runs w (e ∷ es) r h =
    runs (apply_event single w e) es (stepped w e r (room w (and-elim h).0)) (and-elim h).1

busy-Reaches : Reaches single none busy
unfolding apply_event start all_have_room
busy-Reaches = runs (start single none) history started refl

file_count_exact_example :
    busy.file_cnt
    ≡ count_if is_file (one_entry busy.lru) + count_if is_file busy.publishing + length busy.doomed
file_count_exact_example = file_count_exact single single_laws none busy refl busy-Reaches

one_in_flight : (busy.file_cnt ≡ 2) × (length busy.doomed ≡ 1)
unfolding apply_event start
one_in_flight = (refl, refl)
