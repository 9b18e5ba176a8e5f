-- ===== src/Cache.antt =====
-- The store path of the response cache, `spool_and_store` of
-- rpxy-lib/src/forwarder/cache/cache_main.rs, with its temporary file. What happens outside, the
-- receiver of the relay and the file system, is an input of each round. The SHA-256 hasher is the bytes
-- that it was fed with.
pub mod Metadata
pub mod Relay
pub mod Spooled
pub mod Stored
use rust_rpxy.Common.{
  ℕ, zero, suc, ◌+◌, ◌-◌, ◌≡◌, Bool, true, false, not, ◌&&◌, ◌||◌, Option, none, some, List, [],
  ◌∷◌, ◌++◌, min, if◌then◌else◌, ltb, length, is_some, Bytes, usize_max,
}

pub data Frame : Type 0 where
  data_frame : Bytes → Frame
  trailers : Bytes → Frame
  failed : Frame

-- What a round meets: whether the receiver takes the frame, whether a temporary file can be created,
-- whether the writes of the buffer and of the frame to it succeed, and whether `remove_uncounted_file`
-- unlinks it; a failure of that is only logged.
pub record Round : Type 0 where
  pub frame : Frame
  pub sent : Bool
  pub created : Bool
  pub buf_written : Bool
  pub data_written : Bool
  pub unlinked : Bool

pub record Limits : Type 0 where
  pub max_each_size : ℕ
  pub max_each_size_on_memory : ℕ

-- The variables of the loop. `spill` is the content of the temporary file, and `temp_files` how many of
-- them are on disk.
pub record Spool : Type 0 where
  pub buf : Bytes
  pub size : ℕ
  pub cacheable : Bool
  pub spill : Option Bytes
  pub hasher : Bytes
  pub temp_files : ℕ
  pub relayed : List Frame

abbrev pub start : Spool
start = record {
  buf = [];
  size = 0;
  cacheable = true;
  spill = none;
  hasher = [];
  temp_files = 0;
  relayed = [];
}

abbrev pub saturating_add : ℕ → ℕ → ℕ
saturating_add a b = min (a + b) usize_max

-- `remove_uncounted_file`: the temporary files that are left.
pub remove_uncounted_file : Bool → ℕ → ℕ
remove_uncounted_file true n = n - 1
remove_uncounted_file false n = n

left_after_abort : Bool → Option Bytes → ℕ → ℕ
unfolding remove_uncounted_file
left_after_abort unlinked none n = n
left_after_abort unlinked (some content) n = remove_uncounted_file unlinked n

-- `spill.take()` and `abort`, with the buffer given up or kept.
pub abandon : Spool → Bytes → Bool → Spool
unfolding left_after_abort
abandon s buf unlinked = record {
  buf = buf;
  size = s.size;
  cacheable = false;
  spill = none;
  hasher = s.hasher;
  temp_files = left_after_abort unlinked s.spill s.temp_files;
  relayed = s.relayed;
}

pub forward : Spool → Frame → Spool
forward s frame = record {
  buf = s.buf;
  size = s.size;
  cacheable = s.cacheable;
  spill = s.spill;
  hasher = s.hasher;
  temp_files = s.temp_files;
  relayed = s.relayed ++ frame ∷ [];
}

-- The counters after a frame within the limit.
count_data : Spool → Bytes → Spool
count_data s bytes = record {
  buf = s.buf;
  size = saturating_add s.size (length bytes);
  cacheable = s.cacheable;
  spill = s.spill;
  hasher = s.hasher ++ bytes;
  temp_files = s.temp_files;
  relayed = s.relayed;
}

-- Phase F: the frame goes to the temporary file.
append_to_file : Spool → Bytes → Bytes → Bool → Bool → Spool
unfolding abandon
append_to_file s content bytes true unlinked = record {
  buf = s.buf;
  size = s.size;
  cacheable = s.cacheable;
  spill = some (content ++ bytes);
  hasher = s.hasher;
  temp_files = s.temp_files;
  relayed = s.relayed;
}
append_to_file s content bytes false unlinked = abandon s s.buf unlinked

-- The buffer and the frame go to a new temporary file. A file that cannot be written is aborted.
spill_over : Spool → Bytes → Bool → Bool → Bool → Spool
unfolding abandon
spill_over s bytes false written unlinked = abandon s [] unlinked
spill_over s bytes true false unlinked = record {
  buf = [];
  size = s.size;
  cacheable = false;
  spill = none;
  hasher = s.hasher;
  temp_files = remove_uncounted_file unlinked (suc s.temp_files);
  relayed = s.relayed;
}
spill_over s bytes true true unlinked = record {
  buf = [];
  size = s.size;
  cacheable = s.cacheable;
  spill = some (s.buf ++ bytes);
  hasher = s.hasher;
  temp_files = suc s.temp_files;
  relayed = s.relayed;
}

keep_on_memory : Spool → Bytes → Spool
keep_on_memory s bytes = record {
  buf = s.buf ++ bytes;
  size = s.size;
  cacheable = s.cacheable;
  spill = s.spill;
  hasher = s.hasher;
  temp_files = s.temp_files;
  relayed = s.relayed;
}

place : Limits → Spool → Bytes → Round → Option Bytes → Spool
unfolding append_to_file spill_over keep_on_memory
place limits s bytes round (some content) =
    append_to_file s content bytes round.data_written round.unlinked
place limits s bytes round none =
    if ltb limits.max_each_size_on_memory (saturating_add (length s.buf) (length bytes))
    then spill_over s bytes round.created (round.buf_written && round.data_written) round.unlinked
    else keep_on_memory s bytes

cache_frame : Limits → Spool → Round → Frame → Spool
unfolding place count_data abandon
cache_frame limits s round failed = abandon s [] round.unlinked
cache_frame limits s round (trailers t) = s
cache_frame limits s round (data_frame bytes) =
    if ltb limits.max_each_size (saturating_add s.size (length bytes))
    then abandon s [] round.unlinked
    else place limits (count_data s bytes) bytes round s.spill

-- A round after the frame was sent.
pub step : Limits → Spool → Round → Spool
unfolding cache_frame forward
step limits s round =
    let s' = forward s round.frame in
    if not s.cacheable then s' else cache_frame limits s' round round.frame

pub data Target : Type 0 where
  file on_memory : Bytes → Target

-- The object that is stored, with the input of its hash; the temporary files that are left; the frames
-- that went downstream.
pub record Outcome : Type 0 where
  pub stored : Option (Target × Bytes)
  pub temp_files : ℕ
  pub relayed : List Frame

-- What `SpillFile::commit` meets: whether the flush and the rename succeed, and whether the file is
-- unlinked if not.
pub record Ending : Type 0 where
  pub committed : Bool
  pub unlinked : Bool

commit : Spool → Bool → Bool → Option Bytes → Outcome
unfolding remove_uncounted_file
commit s committed unlinked none = record {
  stored = some (on_memory s.buf, s.hasher);
  temp_files = s.temp_files;
  relayed = s.relayed;
}
commit s true unlinked (some content) = record {
  stored = some (file content, s.hasher);
  temp_files = s.temp_files - 1;
  relayed = s.relayed;
}
commit s false unlinked (some content) = record {
  stored = none;
  temp_files = remove_uncounted_file unlinked s.temp_files;
  relayed = s.relayed;
}

finish : Spool → Ending → Outcome
unfolding commit
finish s ending =
    if not s.cacheable
    then record { stored = none; temp_files = s.temp_files; relayed = s.relayed }
    else commit s ending.committed ending.unlinked s.spill

receiver_gone : Spool → Bool → Outcome
unfolding abandon
receiver_gone s unlinked = record {
  stored = none;
  temp_files = (abandon s s.buf unlinked).temp_files;
  relayed = s.relayed;
}

-- The loop, over the rounds until the body ends.
pub spool : Limits → Ending → Spool → List Round → Outcome
unfolding step finish receiver_gone
spool limits ending s [] = finish s ending
spool limits ending s (round ∷ rounds) =
    let rest = spool limits ending (step limits s round) rounds in
    if round.sent then rest else receiver_gone s round.unlinked

unfoldable pub spool_and_store : Limits → Ending → List Round → Outcome
unfolding spool
spool_and_store limits ending rounds = spool limits ending start rounds
