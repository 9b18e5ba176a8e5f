-- ===== src/Cache/Metadata.antt =====
-- The metadata of the response cache: `LruCacheManager`, `FileStore` and `publish_cache_object` of
-- rpxy-lib/src/forwarder/cache/cache_main.rs. `LruCache` of the lru crate is a parameter. A path is the
-- number that makes it unique, the process being one; a key is a number too.
pub mod Invariant
pub mod Moves
pub mod Creation
pub mod FileCount
use rust_rpxy.Common.{
  ℕ, zero, suc, ◌+◌, ◌-◌, ◌%◌, ◌≡◌, Bool, true, false, not, Option, none, some, List, [], ◌∷◌,
  if◌then◌else◌, ◌==◌, get_elem?, remove_at, length, usize_mod,
}

pub data CacheFileOrOnMemory : Type 0 where
  file : ℕ → CacheFileOrOnMemory
  on_memory : CacheFileOrOnMemory

pub record CacheObject : Type 0 where
  pub target : CacheFileOrOnMemory
  pub generation : ℕ

abbrev pub Entry : Type 0
Entry = ℕ × CacheObject

-- `LruCache` behind its mutex, with its entries in some order.
pub record LruCache (S : Type 0) : Type 0 where
  pub entries : S → List Entry
  pub push : S → ℕ → CacheObject → S × Option Entry
  pub get : S → ℕ → S × Option CacheObject
  pub peek : S → ℕ → Option CacheObject
  pub pop_entry : S → ℕ → S × Option Entry

-- `cnt` and `file_cnt` are the counts of the map and of the file store. Between two atomic accesses:
-- `files` are the paths of files that are written or committed, `publishing` the objects that are
-- counted but not yet in the map, `doomed` the paths that left the map but are not yet removed, and
-- `snapshots` what lookups have cloned.
pub record World (S : Type 0) : Type 0 where
  pub lru : S
  pub cnt : ℕ
  pub file_cnt : ℕ
  pub cache_file_seq : ℕ
  pub cache_object_gen : ℕ
  pub files : List ℕ
  pub publishing : List Entry
  pub doomed : List ℕ
  pub snapshots : List Entry

-- `fetch_add(1)` on a 64-bit atomic.
abbrev pub incremented : ℕ → ℕ
incremented n = (n + 1) % usize_mod

abbrev pub doom : CacheFileOrOnMemory → List ℕ → List ℕ
doom (file path) doomed = path ∷ doomed
doom on_memory doomed = doomed

abbrev pub same_path : ℕ → CacheFileOrOnMemory → Bool
same_path path (file new) = path == new
same_path path on_memory = false

abbrev pub doom_unless : CacheFileOrOnMemory → CacheFileOrOnMemory → List ℕ → List ℕ
doom_unless new on_memory doomed = doomed
doom_unless new (file old) doomed = if same_path old new then doomed else old ∷ doomed

-- The displaced entry's file, unless it is the one just published.
abbrev pub doom_displaced : CacheFileOrOnMemory → Option Entry → List ℕ → List ℕ
doom_displaced new none doomed = doomed
doom_displaced new (some (key, old)) doomed = doom_unless new old.target doomed

abbrev pub generation_is : ℕ → Option CacheObject → Bool
generation_is g none = false
generation_is g (some o) = o.generation == g

pub data Event : Type 0 where
  creates : Event
  abandons : ℕ → Event
  stores_file : ℕ → ℕ → Event
  stores_on_memory : ℕ → Event
  pushes push_fails : ℕ → Event
  looks_up : ℕ → Event
  evicts removes : ℕ → Event

module _ {S : Type 0} (lru : LruCache S) where
  -- `unique_cache_paths`.
  pub creates_file : World S → World S
  creates_file w = record w {
    cache_file_seq = incremented w.cache_file_seq;
    files = w.cache_file_seq ∷ w.files;
  }

  -- `CacheObject::new` and the start of `publish_cache_object`.
  pub new_object : World S → ℕ → CacheFileOrOnMemory → World S
  new_object w key target = record w {
    cache_object_gen = incremented w.cache_object_gen;
    publishing = (key, record { target = target; generation = w.cache_object_gen }) ∷ w.publishing;
  }

  -- `FileStore::incr_count`.
  pub incr_count : World S → World S
  incr_count w = record w { file_cnt = incremented w.file_cnt }

  pub stores : World S → ℕ → ℕ → Option ℕ → World S
  unfolding new_object incr_count
  stores w i key none = w
  stores w i key (some path) =
      new_object (incr_count (record w { files = remove_at w.files i })) key (file path)

  -- `LruCacheManager::push` and the displaced entry.
  pub push_entry : World S → ℕ → Option Entry → World S
  push_entry w i none = w
  push_entry w i (some (key, object)) = record w {
    lru = (lru.push w.lru key object).0;
    cnt = length (lru.entries (lru.push w.lru key object).0);
    publishing = remove_at w.publishing i;
    doomed = doom_displaced object.target (lru.push w.lru key object).1 w.doomed;
  }

  -- The mutex is poisoned.
  pub roll_back : World S → ℕ → Option Entry → World S
  roll_back w i none = w
  roll_back w i (some (key, object)) = record w {
    publishing = remove_at w.publishing i;
    doomed = doom object.target w.doomed;
  }

  pub cloned : ℕ → Option CacheObject → List Entry → List Entry
  cloned key none snapshots = snapshots
  cloned key (some object) snapshots = (key, object) ∷ snapshots

  -- `LruCacheManager::get`.
  pub get_entry : World S → ℕ → World S
  unfolding cloned
  get_entry w key = record w {
    lru = (lru.get w.lru key).0;
    snapshots = cloned key (lru.get w.lru key).1 w.snapshots;
  }

  -- `evict_if_generation` and what its callers do with the file of their snapshot.
  pub evict_snapshot : World S → ℕ → Option Entry → World S
  evict_snapshot w i none = w
  evict_snapshot w i (some (key, object)) =
      let seen = remove_at w.snapshots i in
      if generation_is object.generation (lru.peek w.lru key)
      then record w {
        lru = (lru.pop_entry w.lru key).0;
        cnt = length (lru.entries (lru.pop_entry w.lru key).0);
        snapshots = seen;
        doomed = doom object.target w.doomed;
      }
      else record w { snapshots = seen }

  -- `FileStore::remove`: the count saturates, the result of the unlink is ignored.
  pub remove_file : World S → ℕ → Option ℕ → World S
  remove_file w i none = w
  remove_file w i (some path) = record w {
    file_cnt = w.file_cnt - 1;
    doomed = remove_at w.doomed i;
  }

  unfoldable pub apply_event : World S → Event → World S
  unfolding creates_file stores new_object push_entry roll_back get_entry evict_snapshot remove_file
  apply_event w creates = creates_file w
  apply_event w (abandons i) = record w { files = remove_at w.files i }
  apply_event w (stores_file i key) = stores w i key (get_elem? w.files i)
  apply_event w (stores_on_memory key) = new_object w key on_memory
  apply_event w (pushes i) = push_entry w i (get_elem? w.publishing i)
  apply_event w (push_fails i) = roll_back w i (get_elem? w.publishing i)
  apply_event w (looks_up key) = get_entry w key
  apply_event w (evicts i) = evict_snapshot w i (get_elem? w.snapshots i)
  apply_event w (removes i) = remove_file w i (get_elem? w.doomed i)

  unfoldable pub start : S → World S
  start empty = record {
    lru = empty;
    cnt = 0;
    file_cnt = 0;
    cache_file_seq = 0;
    cache_object_gen = 0;
    files = [];
    publishing = [];
    doomed = [];
    snapshots = [];
  }
