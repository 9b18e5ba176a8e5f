-- ===== src/Examples/Caching.antt =====
-- The store path at concrete bodies: rpxy-lib/src/forwarder/cache/cache_main.rs.
use rust_rpxy.Common.{◌≡◌, ◌+◌, refl, true, false, none, some, List, [], ◌∷◌, bytes, arith}
use rust_rpxy.Cache.{
  Frame, data_frame, trailers, failed, Round, Limits, Ending, file, on_memory, spool_and_store,
}
use rust_rpxy.Cache.Relay.{delivered, spool_and_store-relayed}
use rust_rpxy.Cache.Spooled.{failure, Leftover}
use rust_rpxy.Cache.Stored.{whole_body, Kept, failures, spool_and_store-Kept}

abbrev limits : Limits
limits = record { max_each_size = 10; max_each_size_on_memory = 4 }

abbrev round_of : Frame → Round
round_of frame = record {
  frame = frame;
  sent = true;
  created = true;
  buf_written = true;
  data_written = true;
  unlinked = true;
}

abbrev committed : Ending
committed = record { committed = true; unlinked = true }

abbrev stuck : Ending
stuck = record { committed = false; unlinked = false }

abbrev long_body : List Round
long_body =
    round_of (data_frame (bytes "abc"))
    ∷ round_of (data_frame (bytes "def"))
    ∷ round_of (trailers (bytes "t"))
    ∷ []

leaves_one : (spool_and_store limits stuck long_body).temp_files ≡ 1
unfolding spool_and_store
leaves_one = refl

store_tests :
    ((spool_and_store limits committed long_body).stored
      ≡ some (file (bytes "abcdef"), bytes "abcdef"))
    × ((spool_and_store limits stuck long_body).stored ≡ none)
    × ((spool_and_store limits committed (round_of (data_frame (bytes "abc")) ∷ [])).stored
        ≡ some (on_memory (bytes "abc"), bytes "abc"))
    × ((spool_and_store limits committed (round_of (data_frame (bytes "abcdefghijk")) ∷ [])).stored
        ≡ none)
    × ((spool_and_store limits committed
          (round_of (data_frame (bytes "a")) ∷ round_of failed ∷ [])).stored
        ≡ none)
unfolding spool_and_store
store_tests = (refl, refl, refl, refl, refl)

spool_and_store-relayed_example :
    (spool_and_store limits stuck long_body).relayed ≡ delivered long_body
spool_and_store-relayed_example = spool_and_store-relayed limits stuck long_body

spool_and_store-Kept_example :
    Kept limits (whole_body long_body) (spool_and_store limits stuck long_body).stored
    × Leftover
        (failures long_body + failure stuck.unlinked)
        (spool_and_store limits stuck long_body).temp_files
spool_and_store-Kept_example =
    spool_and_store-Kept limits stuck long_body (omega arith) (omega arith)
