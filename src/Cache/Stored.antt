-- ===== src/Cache/Stored.antt =====
-- What is stored is the whole body, within the limits, and which temporary files are left.
use rust_rpxy.Common.{
  ℕ, ◌+◌, ◌≡◌, ◌≤◌, ◌<◌, ◌⊎◌, refl, sym, ap, subst, inl, inr, Bool, true, false, not, ◌&&◌, Option,
  none, some, List, [], ◌∷◌, ◌++◌, append_assoc, append-nil, if◌then◌else◌, length, Bytes, arith,
  usize_max,
}
use rust_rpxy.Cache.{
  Frame, data_frame, trailers, failed, Round, Limits, Ending, Spool, start, abandon,
  left_after_abort, forward, cache_frame, step, commit, finish, receiver_gone, spool,
  spool_and_store, Target, file, on_memory, Outcome,
}
use rust_rpxy.Cache.Spooled.{
  frame_data, memory_at, file_at, GivenUp, Sound, step-Sound, failure, Leftover, removed-Leftover,
  none-Leftover, more-Leftover,
}

abbrev is_failed : Frame → Bool
is_failed failed = true
is_failed _ = false

abbrev prepend : Bytes → Option Bytes → Option Bytes
prepend bytes none = none
prepend bytes (some body) = some (bytes ++ body)

-- The body that the rounds carry, unless it fails or the receiver goes.
abbrev pub whole_body : List Round → Option Bytes
whole_body [] = some []
whole_body (round ∷ rounds) =
    let rest = whole_body rounds in
    if round.sent && not (is_failed round.frame)
    then prepend (frame_data round.frame) rest
    else none

-- Nothing was stored, or the whole body in a file or, up to the smaller limit, on memory; the hash is
-- that of the body.
abbrev pub Kept : Limits → Option Bytes → Option (Target × Bytes) → Type 0
Kept limits none stored = stored ≡ none
Kept limits (some body) stored =
    (stored ≡ none)
    ⊎ (stored ≡ some (file body, body)) × (length body ≤ limits.max_each_size)
    ⊎ (stored ≡ some (on_memory body, body))
      × (length body ≤ limits.max_each_size)
      × (length body ≤ limits.max_each_size_on_memory)

-- How often a temporary file that is given up is not unlinked.
abbrev pub failures : List Round → ℕ
failures [] = 0
failures (round ∷ rounds) = failure round.unlinked + failures rounds

module _ (limits : Limits) (small : limits.max_each_size < usize_max)
    (small_on_memory : limits.max_each_size_on_memory < usize_max) where
  given-step :
      (f : ℕ) (s : Spool) (round : Round)
      → GivenUp f s
      → GivenUp (f + failure round.unlinked) (step limits s round)
  unfolding step forward
  given-step f s round (c, p, t) =
      rw c (refl, p, more-Leftover f (failure round.unlinked) s.temp_files t)

  -- A spool whose file, if any, is the only one.
  failed-frame :
      (f : ℕ) (s : Spool) (round : Round) (frame : Frame)
      → Leftover (f + failure round.unlinked) (left_after_abort round.unlinked s.spill s.temp_files)
      → is_failed frame ≡ true
      → GivenUp (f + failure round.unlinked) (cache_frame limits s round frame)
  unfolding cache_frame abandon
  failed-frame f s round failed z h = (refl, refl, z)
  failed-frame f s round (data_frame bytes) z h = absurd (cc)
  failed-frame f s round (trailers t) z h = absurd (cc)

  failed-step :
      (f : ℕ) (seen : Bytes) (s : Spool) (round : Round)
      → Sound limits f seen s
      → is_failed round.frame ≡ true
      → GivenUp (f + failure round.unlinked) (step limits s round)
  unfolding step forward left_after_abort
  failed-step f seen s round (inl g) h = given-step f s round g
  failed-step f seen s round (inr (inl (e, p, k))) h =
      subst (λ x. GivenUp (f + failure round.unlinked) (step limits x round)) (sym e)
        (failed-frame f (memory_at seen (length seen) (s.relayed ++ round.frame ∷ [])) round
          round.frame (none-Leftover (f + failure round.unlinked)) h)
  failed-step f seen s round (inr (inr (e, p))) h =
      subst (λ x. GivenUp (f + failure round.unlinked) (step limits x round)) (sym e)
        (failed-frame f (file_at seen (length seen) (s.relayed ++ round.frame ∷ [])) round
          round.frame (removed-Leftover f round.unlinked) h)

  abbrev Finished : Option Bytes → ℕ → Outcome → Type 0
  Finished body f o = Kept limits body o.stored × Leftover f o.temp_files

  nothing :
      (body : Option Bytes) (f : ℕ) (o : Outcome)
      → o.stored ≡ none
      → Leftover f o.temp_files
      → Finished body f o
  nothing none f o e t = (e, t)
  nothing (some b) f o e t = (inl e, t)

  gone-Leftover :
      (f : ℕ) (seen : Bytes) (s : Spool) (u : Bool)
      → Sound limits f seen s
      → Leftover (f + failure u) (receiver_gone s u).temp_files
  unfolding receiver_gone abandon left_after_abort
  gone-Leftover f seen s u (inl (c, p, t)) = rw p (more-Leftover f (failure u) s.temp_files t)
  gone-Leftover f seen s u (inr (inl (e, h, k))) =
      subst (λ x. Leftover (f + failure u) (receiver_gone x u).temp_files) (sym e)
        (none-Leftover (f + failure u))
  gone-Leftover f seen s u (inr (inr (e, h))) =
      subst (λ x. Leftover (f + failure u) (receiver_gone x u).temp_files) (sym e)
        (removed-Leftover f u)

  finish-Finished :
      (ending : Ending) (f : ℕ) (seen : Bytes) (s : Spool)
      → Sound limits f seen s
      → Finished (some seen) (f + failure ending.unlinked) (finish s ending)
  unfolding finish commit
  finish-Finished ending f seen s (inl (c, p, t)) =
      rw c (inl refl, more-Leftover f (failure ending.unlinked) s.temp_files t)
  finish-Finished ending f seen s (inr (inl (e, h, k))) =
      subst (λ x. Finished (some seen) (f + failure ending.unlinked) (finish x ending)) (sym e)
        (inr (inr (refl, h, k)), none-Leftover (f + failure ending.unlinked))
  finish-Finished ending f seen s (inr (inr (e, h))) =
      subst (λ x. Finished (some seen) (f + failure ending.unlinked) (finish x ending)) (sym e)
        (go ending.committed)
    where
      at : Spool
      at = file_at seen (length seen) s.relayed

      go :
          (b : Bool)
          → Finished
              (some seen)
              (f + failure ending.unlinked)
              (commit at b ending.unlinked (some seen))
      go true = (inr (inl (refl, h)), none-Leftover (f + failure ending.unlinked))
      go false = (inl refl, removed-Leftover f ending.unlinked)

  abbrev total : ℕ → Ending → List Round → ℕ
  total f ending rounds = f + failures rounds + failure ending.unlinked

  given-spool :
      (ending : Ending) (body : Option Bytes) (f : ℕ) (s : Spool) (rounds : List Round)
      → GivenUp f s
      → Finished body (total f ending rounds) (spool limits ending s rounds)
  unfolding spool finish receiver_gone
  given-spool ending body f s [] (c, p, t) = rw c (
      nothing body (f + 0 + failure ending.unlinked)
        (record { stored = none; temp_files = s.temp_files; relayed = s.relayed }) refl
        (omega arith, t.1))
  given-spool ending body f s (round ∷ rounds) g =
      go round.sent
        (given-spool ending body (f + failure round.unlinked) (step limits s round) rounds
          (given-step f s round g))
        (gone-Leftover f [] s round.unlinked (inl g))
    where
      go :
          (b : Bool)
          → Finished body
              (total (f + failure round.unlinked) ending rounds)
              (spool limits ending (step limits s round) rounds)
          → Leftover (f + failure round.unlinked) (receiver_gone s round.unlinked).temp_files
          → Finished body (total f ending (round ∷ rounds)) (
              if b
              then spool limits ending (step limits s round) rounds
              else receiver_gone s round.unlinked)
      go true (h, (l, m)) k = (h, (omega arith, m))
      go false h (l, m) =
          nothing body (total f ending (round ∷ rounds)) (receiver_gone s round.unlinked) refl
            (omega arith, m)

  spool-Finished :
      (ending : Ending) (f : ℕ) (seen : Bytes) (s : Spool) (rounds : List Round)
      → Sound limits f seen s
      → Finished
          (prepend seen (whole_body rounds))
          (total f ending rounds)
          (spool limits ending s rounds)
  unfolding spool
  spool-Finished ending f seen s [] h =
      let (k, (l, m)) = finish-Finished ending f seen s h in
      (
        subst (λ x. Kept limits (some x) (finish s ending).stored) (sym (append-nil seen)) k,
        (omega arith, m),
      )
  spool-Finished ending f seen s (round ∷ rounds) h = go round.sent (is_failed round.frame) refl (
      spool-Finished ending (f + failure round.unlinked) (seen ++ frame_data round.frame)
        (step limits s round) rounds (step-Sound limits small small_on_memory f seen s round h))
    where
      body : Option Bytes
      body = whole_body rounds

      assoc :
          (o : Option Bytes)
          → prepend (seen ++ frame_data round.frame) o
            ≡ prepend seen (prepend (frame_data round.frame) o)
      assoc none = refl
      assoc (some b) = ap some (append_assoc seen (frame_data round.frame) b)

      later :
          (o : Option Bytes)
          → Finished o
              (total (f + failure round.unlinked) ending rounds)
              (spool limits ending (step limits s round) rounds)
          → Finished o
              (total f ending (round ∷ rounds))
              (spool limits ending (step limits s round) rounds)
      later o (k, (l, m)) = (k, (omega arith, m))

      go :
          (b e : Bool)
          → is_failed round.frame ≡ e
          → Finished
              (prepend (seen ++ frame_data round.frame) body)
              (total (f + failure round.unlinked) ending rounds)
              (spool limits ending (step limits s round) rounds)
          → Finished
              (prepend seen (if b && not e then prepend (frame_data round.frame) body else none))
              (total f ending (round ∷ rounds))
              (if b
                then spool limits ending (step limits s round) rounds
                else receiver_gone s round.unlinked)
      go false e q r =
          let (l, m) = gone-Leftover f seen s round.unlinked h in
          (unfold receiver_gone in refl, (omega arith, m))
      go true true q r = later none (
          given-spool ending none (f + failure round.unlinked) (step limits s round) rounds
            (failed-step f seen s round h q))
      go true false q r = later (prepend seen (prepend (frame_data round.frame) body)) (
          subst
            (λ x.
              Finished x (total (f + failure round.unlinked) ending rounds)
                (spool limits ending (step limits s round) rounds))
            (assoc body) r)

  unprefixed : (o : Option Bytes) → prepend [] o ≡ o
  unprefixed none = refl
  unprefixed (some b) = refl

-- With limits below the largest `usize`, whatever the files and the receiver do: what is stored is the
-- whole body with its hash, within `max_each_size`, and on memory only within the smaller limit; a body
-- that fails or that the receiver does not take whole is not stored; at most one temporary file is left,
-- and none if no attempt to unlink one fails.
pub spool_and_store-Kept :
    (limits : Limits) (ending : Ending) (rounds : List Round)
    → limits.max_each_size < usize_max
    → limits.max_each_size_on_memory < usize_max
    → Kept limits (whole_body rounds) (spool_and_store limits ending rounds).stored
      × Leftover
          (failures rounds + failure ending.unlinked)
          (spool_and_store limits ending rounds).temp_files
unfolding spool_and_store
spool_and_store-Kept limits ending rounds h k =
    let (p, (l, m)) =
      spool-Finished limits h k ending 0 [] start rounds
        (inr (inl (refl, omega arith, omega arith))) in
    (
      subst (λ x. Kept limits x (spool limits ending start rounds).stored)
          (unprefixed limits h k (whole_body rounds)) p,
      (omega arith, m),
    )
