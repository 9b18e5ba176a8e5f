-- ===== src/Cache/Relay.antt =====
-- The relay downstream is never cut by the cache.
use rust_rpxy.Common.{
  ◌≡◌, refl, sym, ap, ◌∙◌, Bool, true, false, not, ◌&&◌, Option, none, some, List, [], ◌∷◌, ◌++◌,
  append_assoc, append-nil, if◌then◌else◌, ltb, length, Bytes,
}
use rust_rpxy.Cache.{
  Frame, data_frame, trailers, failed, Round, Limits, Ending, Spool, start, saturating_add, abandon,
  forward, count_data, append_to_file, spill_over, keep_on_memory, place, cache_frame, step, commit,
  finish, receiver_gone, spool, spool_and_store,
}

-- The frames before the first that the receiver does not take.
abbrev pub delivered : List Round → List Frame
delivered [] = []
delivered (round ∷ rounds) =
    let rest = delivered rounds in if round.sent then round.frame ∷ rest else []

place-relayed :
    (limits : Limits) (s : Spool) (bytes : Bytes) (round : Round) (o : Option Bytes)
    → (place limits s bytes round o).relayed ≡ s.relayed
unfolding place append_to_file spill_over keep_on_memory abandon
place-relayed limits s bytes round (some content) = written round.data_written
  where
    written : (b : Bool) → (append_to_file s content bytes b round.unlinked).relayed ≡ s.relayed
    written true = refl
    written false = refl
place-relayed limits s bytes round none =
    go (ltb limits.max_each_size_on_memory (saturating_add (length s.buf) (length bytes)))
  where
    spilled : (c w : Bool) → (spill_over s bytes c w round.unlinked).relayed ≡ s.relayed
    spilled false w = refl
    spilled true false = refl
    spilled true true = refl

    go :
        (b : Bool)
        → (if b
            then spill_over s bytes round.created
                (round.buf_written && round.data_written)
                round.unlinked
            else keep_on_memory s bytes).relayed
          ≡ s.relayed
    go true = spilled round.created (round.buf_written && round.data_written)
    go false = refl

cache_frame-relayed :
    (limits : Limits) (s : Spool) (round : Round) (frame : Frame)
    → (cache_frame limits s round frame).relayed ≡ s.relayed
unfolding cache_frame abandon count_data
cache_frame-relayed limits s round failed = refl
cache_frame-relayed limits s round (trailers t) = refl
cache_frame-relayed limits s round (data_frame bytes) =
    go (ltb limits.max_each_size (saturating_add s.size (length bytes)))
      (place-relayed limits (count_data s bytes) bytes round s.spill)
  where
    go :
        (b : Bool)
        → (place limits (count_data s bytes) bytes round s.spill).relayed ≡ s.relayed
        → (if b
            then abandon s [] round.unlinked
            else place limits (count_data s bytes) bytes round s.spill).relayed
          ≡ s.relayed
    go true h = refl
    go false h = h

step-relayed :
    (limits : Limits) (s : Spool) (round : Round)
    → (step limits s round).relayed ≡ s.relayed ++ round.frame ∷ []
unfolding step forward
step-relayed limits s round =
    go s.cacheable (cache_frame-relayed limits (forward s round.frame) round round.frame)
  where
    go :
        (b : Bool)
        → (cache_frame limits (forward s round.frame) round round.frame).relayed
          ≡ s.relayed ++ round.frame ∷ []
        → (if not b
            then forward s round.frame
            else cache_frame limits (forward s round.frame) round round.frame).relayed
          ≡ s.relayed ++ round.frame ∷ []
    go true h = h
    go false h = refl

finish-relayed : (s : Spool) (ending : Ending) → (finish s ending).relayed ≡ s.relayed
unfolding finish commit
finish-relayed s ending = go s.cacheable s.spill ending.committed
  where
    go :
        (b : Bool) (o : Option Bytes) (c : Bool)
        → (if not b
            then record { stored = none; temp_files = s.temp_files; relayed = s.relayed }
            else commit s c ending.unlinked o).relayed
          ≡ s.relayed
    go false o c = refl
    go true none c = refl
    go true (some content) true = refl
    go true (some content) false = refl

spool-relayed :
    (limits : Limits) (ending : Ending) (s : Spool) (rounds : List Round)
    → (spool limits ending s rounds).relayed ≡ s.relayed ++ delivered rounds
unfolding spool receiver_gone
spool-relayed limits ending s [] = finish-relayed s ending ∙ sym (append-nil s.relayed)
spool-relayed limits ending s (round ∷ rounds) =
    go round.sent (spool-relayed limits ending (step limits s round) rounds)
  where
    go :
        (b : Bool)
        → (spool limits ending (step limits s round) rounds).relayed
          ≡ (step limits s round).relayed ++ delivered rounds
        → (if b
            then spool limits ending (step limits s round) rounds
            else receiver_gone s round.unlinked).relayed
          ≡ s.relayed ++ (if b then round.frame ∷ delivered rounds else [])
    go true h =
        h
        ∙ ap (λ l. l ++ delivered rounds) (step-relayed limits s round)
        ∙ append_assoc s.relayed (round.frame ∷ []) (delivered rounds)
    go false h = sym (append-nil s.relayed)

-- Whatever the limits, the files and the frames are, every frame goes downstream in order until the
-- receiver is gone.
pub spool_and_store-relayed :
    (limits : Limits) (ending : Ending) (rounds : List Round)
    → (spool_and_store limits ending rounds).relayed ≡ delivered rounds
unfolding spool_and_store
spool_and_store-relayed limits ending rounds = spool-relayed limits ending start rounds
