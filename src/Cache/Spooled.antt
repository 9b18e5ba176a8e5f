-- ===== src/Cache/Spooled.antt =====
-- What a round keeps true of the spool: the bytes seen so far are in the buffer or in the file.
use rust_rpxy.Common.{
  ℕ, ◌+◌, ◌≡◌, ◌≤◌, ◌<◌, ◌⊎◌, refl, sym, ◌∙◌, subst, inl, inr, Bool, true, false, ◌&&◌, none, some,
  List, [], ◌∷◌, ◌++◌, append-nil, if◌then◌else◌, ltb, length, length-append, Bytes, arith,
  usize_max,
}
use rust_rpxy.Cache.{
  Frame, data_frame, trailers, failed, Round, Limits, Spool, saturating_add, abandon,
  remove_uncounted_file, left_after_abort, forward, count_data, append_to_file, spill_over,
  keep_on_memory, place, cache_frame, step,
}

abbrev pub frame_data : Frame → Bytes
frame_data (data_frame bytes) = bytes
frame_data (trailers t) = []
frame_data failed = []

abbrev pub memory_at : Bytes → ℕ → List Frame → Spool
memory_at seen size relayed = record {
  buf = seen;
  size = size;
  cacheable = true;
  spill = none;
  hasher = seen;
  temp_files = 0;
  relayed = relayed;
}

abbrev pub file_at : Bytes → ℕ → List Frame → Spool
file_at seen size relayed = record {
  buf = [];
  size = size;
  cacheable = true;
  spill = some seen;
  hasher = seen;
  temp_files = 1;
  relayed = relayed;
}

-- How often a file is not unlinked.
abbrev pub failure : Bool → ℕ
failure true = 0
failure false = 1

-- No more files are left than were not unlinked, and one at most.
abbrev pub Leftover : ℕ → ℕ → Type 0
Leftover failures files = (files ≤ failures) × (files ≤ 1)

pub removed-Leftover : (f : ℕ) (u : Bool) → Leftover (f + failure u) (remove_uncounted_file u 1)
unfolding remove_uncounted_file
removed-Leftover f true = (omega arith, omega arith)
removed-Leftover f false = (omega arith, omega arith)

pub none-Leftover : (f : ℕ) → Leftover f 0
none-Leftover f = (omega arith, omega arith)

pub more-Leftover : (f g n : ℕ) → Leftover f n → Leftover (f + g) n
more-Leftover f g n (a, b) = (omega arith, b)

abbrev pub GivenUp : ℕ → Spool → Type 0
GivenUp failures s = (s.cacheable ≡ false) × (s.spill ≡ none) × Leftover failures s.temp_files

-- Caching was given up, or what was seen so far is in the buffer, or it is in the file.
abbrev pub Sound : Limits → ℕ → Bytes → Spool → Type 0
Sound limits failures seen s =
    GivenUp failures s
    ⊎ (s ≡ memory_at seen (length seen) s.relayed)
      × (length seen ≤ limits.max_each_size)
      × (length seen ≤ limits.max_each_size_on_memory)
    ⊎ (s ≡ file_at seen (length seen) s.relayed) × (length seen ≤ limits.max_each_size)

module _ (limits : Limits) (small : limits.max_each_size < usize_max)
    (small_on_memory : limits.max_each_size_on_memory < usize_max) where
  within :
      (m a b : ℕ)
      → m < usize_max
      → ltb m (saturating_add a b) ≡ false
      → (saturating_add a b ≡ a + b) × (a + b ≤ m)
  within m a b h e = ground arith

  -- A frame within the limit after a buffer.
  memory-place :
      (f : ℕ) (seen bytes : Bytes) (relayed : List Frame) (round : Round)
      → length (seen ++ bytes) ≤ limits.max_each_size
      → Sound limits (f + failure round.unlinked) (seen ++ bytes) (
          place limits
            (record {
              buf = seen;
              size = length (seen ++ bytes);
              cacheable = true;
              spill = none;
              hasher = seen ++ bytes;
              temp_files = 0;
              relayed = relayed;
            })
            bytes
            round
            none)
  unfolding place spill_over keep_on_memory abandon left_after_abort
  memory-place f seen bytes relayed round h =
      go (ltb limits.max_each_size_on_memory (saturating_add (length seen) (length bytes))) refl
        round.created (round.buf_written && round.data_written)
    where
      s : Spool
      s = record {
        buf = seen;
        size = length (seen ++ bytes);
        cacheable = true;
        spill = none;
        hasher = seen ++ bytes;
        temp_files = 0;
        relayed = relayed;
      }

      fits :
          ltb limits.max_each_size_on_memory (saturating_add (length seen) (length bytes)) ≡ false
          → length (seen ++ bytes) ≤ limits.max_each_size_on_memory
      fits e = omega (
        arith,
        length-append seen bytes,
        (within limits.max_each_size_on_memory (length seen) (length bytes) small_on_memory e).1,
      )

      go :
          (b : Bool)
          → ltb limits.max_each_size_on_memory (saturating_add (length seen) (length bytes)) ≡ b
          → (c w : Bool)
          → Sound limits
              (f + failure round.unlinked)
              (seen ++ bytes)
              (if b then spill_over s bytes c w round.unlinked else keep_on_memory s bytes)
      go true e false w = inl (refl, refl, none-Leftover (f + failure round.unlinked))
      go true e true false = inl (refl, refl, removed-Leftover f round.unlinked)
      go true e true true = inr (inr (refl, h))
      go false e c w = inr (inl (refl, h, fits e))

  file-place :
      (f : ℕ) (seen bytes : Bytes) (relayed : List Frame) (round : Round)
      → length (seen ++ bytes) ≤ limits.max_each_size
      → Sound limits (f + failure round.unlinked) (seen ++ bytes) (
          place limits
            (record {
              buf = [];
              size = length (seen ++ bytes);
              cacheable = true;
              spill = some seen;
              hasher = seen ++ bytes;
              temp_files = 1;
              relayed = relayed;
            })
            bytes
            round
            (some seen))
  unfolding place append_to_file abandon left_after_abort
  file-place f seen bytes relayed round h = go round.data_written
    where
      s : Spool
      s = record {
        buf = [];
        size = length (seen ++ bytes);
        cacheable = true;
        spill = some seen;
        hasher = seen ++ bytes;
        temp_files = 1;
        relayed = relayed;
      }

      go :
          (b : Bool)
          → Sound limits
              (f + failure round.unlinked)
              (seen ++ bytes)
              (append_to_file s seen bytes b round.unlinked)
      go true = inr (inr (refl, h))
      go false = inl (refl, refl, removed-Leftover f round.unlinked)

  counted :
      (seen bytes : Bytes)
      → ltb limits.max_each_size (saturating_add (length seen) (length bytes)) ≡ false
      → (saturating_add (length seen) (length bytes) ≡ length (seen ++ bytes))
        × (length (seen ++ bytes) ≤ limits.max_each_size)
  counted seen bytes e =
      let w = within limits.max_each_size (length seen) (length bytes) small e in
      (w.0 ∙ sym (length-append seen bytes), omega (arith, length-append seen bytes, w.1))

  memory-frame :
      (f : ℕ) (seen : Bytes) (relayed : List Frame) (round : Round) (frame : Frame)
      → length seen ≤ limits.max_each_size
      → length seen ≤ limits.max_each_size_on_memory
      → Sound limits
          (f + failure round.unlinked)
          (seen ++ frame_data frame)
          (cache_frame limits (memory_at seen (length seen) relayed) round frame)
  unfolding cache_frame abandon left_after_abort count_data
  memory-frame f seen relayed round failed h k =
      inl (refl, refl, none-Leftover (f + failure round.unlinked))
  memory-frame f seen relayed round (trailers t) h k =
      subst
        (λ x. Sound limits (f + failure round.unlinked) x (memory_at seen (length seen) relayed))
        (sym (append-nil seen)) (inr (inl (refl, h, k)))
  memory-frame f seen relayed round (data_frame bytes) h k =
      go (ltb limits.max_each_size (saturating_add (length seen) (length bytes))) refl
    where
      s : ℕ → Spool
      s n = record {
        buf = seen;
        size = n;
        cacheable = true;
        spill = none;
        hasher = seen ++ bytes;
        temp_files = 0;
        relayed = relayed;
      }

      go :
          (b : Bool)
          → ltb limits.max_each_size (saturating_add (length seen) (length bytes)) ≡ b
          → Sound limits (f + failure round.unlinked) (seen ++ bytes) (
              if b
              then abandon (memory_at seen (length seen) relayed) [] round.unlinked
              else place limits (s (saturating_add (length seen) (length bytes))) bytes round none)
      go true e = inl (refl, refl, none-Leftover (f + failure round.unlinked))
      go false e =
          let c = counted seen bytes e in
          subst
            (λ n.
              Sound limits (f + failure round.unlinked) (seen ++ bytes)
                (place limits (s n) bytes round none))
            (sym c.0) (memory-place f seen bytes relayed round c.1)

  file-frame :
      (f : ℕ) (seen : Bytes) (relayed : List Frame) (round : Round) (frame : Frame)
      → length seen ≤ limits.max_each_size
      → Sound limits
          (f + failure round.unlinked)
          (seen ++ frame_data frame)
          (cache_frame limits (file_at seen (length seen) relayed) round frame)
  unfolding cache_frame abandon left_after_abort count_data
  file-frame f seen relayed round failed h = inl (refl, refl, removed-Leftover f round.unlinked)
  file-frame f seen relayed round (trailers t) h =
      subst (λ x. Sound limits (f + failure round.unlinked) x (file_at seen (length seen) relayed))
        (sym (append-nil seen)) (inr (inr (refl, h)))
  file-frame f seen relayed round (data_frame bytes) h =
      go (ltb limits.max_each_size (saturating_add (length seen) (length bytes))) refl
    where
      s : ℕ → Spool
      s n = record {
        buf = [];
        size = n;
        cacheable = true;
        spill = some seen;
        hasher = seen ++ bytes;
        temp_files = 1;
        relayed = relayed;
      }

      go :
          (b : Bool)
          → ltb limits.max_each_size (saturating_add (length seen) (length bytes)) ≡ b
          → Sound limits (f + failure round.unlinked) (seen ++ bytes) (
              if b
              then abandon (file_at seen (length seen) relayed) [] round.unlinked
              else place limits
                  (s (saturating_add (length seen) (length bytes)))
                  bytes
                  round
                  (some seen))
      go true e = inl (refl, refl, removed-Leftover f round.unlinked)
      go false e =
          let c = counted seen bytes e in
          subst
            (λ n.
              Sound limits (f + failure round.unlinked) (seen ++ bytes)
                (place limits (s n) bytes round (some seen)))
            (sym c.0) (file-place f seen bytes relayed round c.1)

  pub step-Sound :
      (f : ℕ) (seen : Bytes) (s : Spool) (round : Round)
      → Sound limits f seen s
      → Sound limits
          (f + failure round.unlinked)
          (seen ++ frame_data round.frame)
          (step limits s round)
  unfolding step forward
  step-Sound f seen s round (inl (c, p, t)) =
      rw c (inl (refl, p, more-Leftover f (failure round.unlinked) s.temp_files t))
  step-Sound f seen s round (inr (inl (e, h, k))) =
      subst
        (λ x.
          Sound limits (f + failure round.unlinked) (seen ++ frame_data round.frame)
            (step limits x round))
        (sym e) (memory-frame f seen (s.relayed ++ round.frame ∷ []) round round.frame h k)
  step-Sound f seen s round (inr (inr (e, h))) =
      subst
        (λ x.
          Sound limits (f + failure round.unlinked) (seen ++ frame_data round.frame)
            (step limits x round))
        (sym e) (file-frame f seen (s.relayed ++ round.frame ∷ []) round round.frame h)
