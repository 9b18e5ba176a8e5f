-- ===== src/Count/Requests.antt =====
-- The global counter under threads that interleave: increments, and decrement loops.
use rust_rpxy.Common.{ℕ, zero, suc, ◌+◌, ◌<◌, ◌≡◌, ◌≢◌, refl, List, [], ◌∷◌, arith, usize_mod, All}
use rust_rpxy.Count.{
  RequestCount, Decrement, start, loaded, done, increment, wrapping_pred, decrement_step,
}

-- The counter and the decrement loops that threads have entered.
pub record Threads : Type 0 where
  pub count : RequestCount
  pub loops : List Decrement

-- `adds` is a whole increment, `enters` a call of `decrement`, `turns i` the next atomic access of
-- the i-th loop.
pub data Access : Type 0 where
  adds enters : Access
  turns : ℕ → Access

turn : ℕ → RequestCount → List Decrement → RequestCount × List Decrement
turn i c [] = (c, [])
turn zero c (d ∷ ds) = let (d', c') = decrement_step d c in (c', d' ∷ ds)
turn (suc i) c (d ∷ ds) = let (c', ds') = turn i c ds in (c', d ∷ ds')

pub access : Threads → Access → Threads
unfolding turn
access t adds = record t { count = (increment t.count).0 }
access t enters = record t { loops = start ∷ t.loops }
access t (turns i) =
    let (count, loops) = turn i t.count t.loops in record { count = count; loops = loops }

pub run : Threads → List Access → Threads
run t [] = t
run t (a ∷ as') = run (access t a) as'

-- What a loop has taken off the counter: one, if it has returned a positive count.
abbrev pub taken : Decrement → ℕ
taken (done (suc n)) = 1
taken _ = 0

abbrev pub taken_all : List Decrement → ℕ
taken_all [] = 0
taken_all (d ∷ ds) = taken d + taken_all ds

abbrev pub additions : List Access → ℕ
additions [] = 0
additions (adds ∷ as') = additions as' + 1
additions (_ ∷ as') = additions as'

-- A loaded count is positive.
abbrev pub IsGuarded : Decrement → Type 0
IsGuarded (loaded n) = n ≢ 0
IsGuarded _ = Unit

decrement_step-IsGuarded :
    (d : Decrement) (c : RequestCount) → IsGuarded d → IsGuarded (decrement_step d c).0
unfolding decrement_step
decrement_step-IsGuarded start c g = ground arith
decrement_step-IsGuarded (loaded n) c g = ground arith
decrement_step-IsGuarded (done n) c g = tt

wrapping_pred-suc : (n : ℕ) → suc n < usize_mod → wrapping_pred (suc n) ≡ n
unfolding wrapping_pred
wrapping_pred-suc n h = omega arith

decrement_step-taken :
    (d : Decrement) (c : RequestCount)
    → IsGuarded d
    → c.value < usize_mod
    → (decrement_step d c).1.value + taken (decrement_step d c).0 ≡ c.value + taken d
unfolding decrement_step
decrement_step-taken start c g w = ground arith
decrement_step-taken (loaded zero) c g w = absurd (g refl)
decrement_step-taken (loaded (suc n)) c g w = ground (arith, wrapping_pred-suc n)
decrement_step-taken (done n) c g w = refl

turn-IsGuarded :
    (i : ℕ) (c : RequestCount) (ds : List Decrement)
    → All IsGuarded ds
    → All IsGuarded (turn i c ds).1
unfolding turn
turn-IsGuarded i c [] g = tt
turn-IsGuarded zero c (d ∷ ds) (g, gs) = (decrement_step-IsGuarded d c g, gs)
turn-IsGuarded (suc i) c (d ∷ ds) (g, gs) = (g, turn-IsGuarded i c ds gs)

turn-taken :
    (i : ℕ) (c : RequestCount) (ds : List Decrement)
    → All IsGuarded ds
    → c.value < usize_mod
    → (turn i c ds).0.value + taken_all (turn i c ds).1 ≡ c.value + taken_all ds
unfolding turn
turn-taken i c [] g w = refl
turn-taken zero c (d ∷ ds) (g, gs) w = omega (arith, decrement_step-taken d c g w)
turn-taken (suc i) c (d ∷ ds) (g, gs) w = omega (arith, turn-taken i c ds gs w)

access-IsGuarded :
    (t : Threads) (a : Access) → All IsGuarded t.loops → All IsGuarded (access t a).loops
unfolding access
access-IsGuarded t adds g = g
access-IsGuarded t enters g = (tt, g)
access-IsGuarded t (turns i) g = turn-IsGuarded i t.count t.loops g

run-taken :
    (t : Threads) (as' : List Access)
    → All IsGuarded t.loops
    → t.count.value + taken_all t.loops + additions as' < usize_mod
    → (run t as').count.value + taken_all (run t as').loops
      ≡ t.count.value + taken_all t.loops + additions as'
unfolding run access increment
run-taken t [] g h = omega arith
run-taken t (adds ∷ as') g h = omega (arith, run-taken (access t adds) as' g (omega arith))
run-taken t (enters ∷ as') g h =
    omega (arith, run-taken (access t enters) as' (tt, g) (omega arith))
run-taken t (turns i ∷ as') g h = omega (
  arith,
  turn-taken i t.count t.loops g (omega arith),
  run-taken (access t (turns i)) as' (turn-IsGuarded i t.count t.loops g)
      (omega (arith, turn-taken i t.count t.loops g (omega arith))),
)

abbrev pub idle : Threads
idle = record { count = record { value = 0 }; loops = [] }

-- Whatever the interleaving, the counter is the increments less the decrements that took effect: no
-- update is lost and none wraps below zero, as long as there are fewer than 2^64 increments.
pub run-conserves :
    (as' : List Access)
    → additions as' < usize_mod
    → (run idle as').count.value + taken_all (run idle as').loops ≡ additions as'
run-conserves as' h = omega (arith, run-taken idle as' tt (omega arith))
