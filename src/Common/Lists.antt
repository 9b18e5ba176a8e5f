-- ===== src/Common/Lists.antt =====
-- Lists measured and indexed by native numbers, and predicates over their entries.
use Prim.Native.Nat.{ℕ, zero, suc, ◌+◌, ◌≤◌, ◌<◌, min}
use mathlib.Core.Path.{◌≡◌, refl, ap, subst}
use mathlib.Core.Bool.{Bool, true, false, ◌&&◌, ◌||◌}
use mathlib.Core.List.{List, [], ◌∷◌, ◌++◌}
use mathlib.Core.Option.{Option, none, some}
use native.Mathlib.Omega.{arith}
use rust_rpxy.Common.Tests.{if◌then◌else◌, ◌>>=◌, bind_some, and-intro, and-elim}

module _ {ℓ} {A : Type ℓ} where
  abbrev pub length : List A → ℕ
  length [] = 0
  length (x ∷ xs) = suc (length xs)

  abbrev pub get_elem? : List A → ℕ → Option A
  get_elem? [] i = none
  get_elem? (x ∷ xs) zero = some x
  get_elem? (x ∷ xs) (suc i) = get_elem? xs i

  abbrev pub take : ℕ → List A → List A
  take zero xs = []
  take (suc n) [] = []
  take (suc n) (x ∷ xs) = x ∷ take n xs

  abbrev pub drop : ℕ → List A → List A
  drop zero xs = xs
  drop (suc n) [] = []
  drop (suc n) (x ∷ xs) = drop n xs

  abbrev pub any : (A → Bool) → List A → Bool
  any p [] = false
  any p (x ∷ xs) = p x || any p xs

  abbrev pub all : (A → Bool) → List A → Bool
  all p [] = true
  all p (x ∷ xs) = p x && all p xs

  -- How many entries pass the test.
  abbrev pub count_if : (A → Bool) → List A → ℕ
  count_if p [] = 0
  count_if p (x ∷ xs) = (if p x then 1 else 0) + count_if p xs

  abbrev pub remove_at : List A → ℕ → List A
  remove_at [] i = []
  remove_at (x ∷ xs) zero = xs
  remove_at (x ∷ xs) (suc i) = x ∷ remove_at xs i

module _ {ℓ} {A : Type ℓ} where
  pub length-append : (xs ys : List A) → length (xs ++ ys) ≡ length xs + length ys
  length-append [] ys = omega arith
  length-append (x ∷ xs) ys = omega (arith, length-append xs ys)

  pub take-append-drop : (n : ℕ) (xs : List A) → take n xs ++ drop n xs ≡ xs
  take-append-drop zero xs = refl
  take-append-drop (suc n) [] = refl
  take-append-drop (suc n) (x ∷ xs) = ap (◌∷◌ x) (take-append-drop n xs)

  pub length-take : (n : ℕ) (xs : List A) → length (take n xs) ≡ min n (length xs)
  length-take zero xs = omega arith
  length-take (suc n) [] = omega arith
  length-take (suc n) (x ∷ xs) = omega (arith, length-take n xs)

  pub count_if-le : (p : A → Bool) (xs : List A) → count_if p xs ≤ length xs
  count_if-le p [] = omega arith
  count_if-le p (x ∷ xs) = ground (arith, count_if-le p xs)

  pub get_elem?_lt : (xs : List A) (i : ℕ) → i < length xs → (a : A) × (get_elem? xs i ≡ some a)
  get_elem?_lt [] i h = elim h [ ]
  get_elem?_lt (x ∷ xs) zero h = (x, refl)
  get_elem?_lt (x ∷ xs) (suc i) h = get_elem?_lt xs i (omega arith)

  pub lt_of_get_elem? : (xs : List A) (i : ℕ) {a : A} → get_elem? xs i ≡ some a → i < length xs
  lt_of_get_elem? [] i h = absurd (cc)
  lt_of_get_elem? (x ∷ xs) zero h = omega arith
  lt_of_get_elem? (x ∷ xs) (suc i) h = omega (arith, lt_of_get_elem? xs i h)

  pub count_if-remove_at :
      (p : A → Bool) (xs : List A) (i : ℕ) {a : A}
      → get_elem? xs i ≡ some a
      → count_if p xs ≡ (if p a then 1 else 0) + count_if p (remove_at xs i)
  count_if-remove_at p [] i h = absurd (cc)
  count_if-remove_at p (x ∷ xs) zero h = ground arith
  count_if-remove_at p (x ∷ xs) (suc i) h = ground (arith, count_if-remove_at p xs i h)

pub all-append {ℓ} :
    {A : Type ℓ} (p : A → Bool) (xs ys : List A) → all p (xs ++ ys) ≡ all p xs && all p ys
all-append p [] ys = refl
all-append p (x ∷ xs) ys = ground (arith, all-append p xs ys)

-- `collect` of an iterator of results.
abbrev pub traverse {ℓ κ} : {A : Type ℓ} {B : Type κ} → (A → Option B) → List A → Option (List B)
traverse f [] = some []
traverse f (x ∷ xs) = f x >>= λ y. traverse f xs >>= λ ys. some (y ∷ ys)

abbrev pub All {ℓ κ} : {A : Type ℓ} → (A → Type κ) → List A → Type κ
All P [] = Unit
All P (x ∷ xs) = P x × All P xs

pub All-get {ℓ κ} :
    {A : Type ℓ} (P : A → Type κ) (xs : List A) (i : ℕ) {a : A}
    → All P xs
    → get_elem? xs i ≡ some a
    → P a
All-get P [] i h e = absurd (cc)
All-get P (x ∷ xs) zero h e = ground (arith, h.0)
All-get P (x ∷ xs) (suc i) h e = All-get P xs i h.1 e

pub some_inj {ℓ} : {A : Type ℓ} {a b : A} → some a ≡ some b → a ≡ b
some_inj h = cc

pub traverse-All {ℓ κ μ} :
    {A : Type ℓ} {B : Type κ} (f : A → Option B) (P : B → Type μ)
    → ((a : A) (b : B) → f a ≡ some b → P b)
    → (xs : List A) (ys : List B) → traverse f xs ≡ some ys
    → All P ys
traverse-All f P h [] ys e = subst (All P) (some_inj e) tt
traverse-All f P h (x ∷ xs) ys e =
    let (b, p, q) = bind_some (f x) _ ys e in
    let (bs, r, s) = bind_some (traverse f xs) _ ys q in
    subst (All P) (some_inj s) (h x b p, traverse-All f P h xs bs r)

pub length-traverse {ℓ κ} :
    {A : Type ℓ} {B : Type κ} (f : A → Option B) (xs : List A) (ys : List B)
    → traverse f xs ≡ some ys
    → length ys ≡ length xs
length-traverse f [] ys e = subst (λ z. length z ≡ 0) (some_inj e) refl
length-traverse f (x ∷ xs) ys e =
    let (b, p, q) = bind_some (f x) _ ys e in
    let (bs, r, s) = bind_some (traverse f xs) _ ys q in
    subst (λ z. length z ≡ suc (length xs)) (some_inj s) (ap suc (length-traverse f xs bs r))

-- A test that each result passes when its argument passes another.
pub traverse-all {ℓ κ} :
    {A : Type ℓ} {B : Type κ} (f : A → Option B) (p : A → Bool) (q : B → Bool)
    → ((a : A) (b : B) → f a ≡ some b → p a ≡ true → q b ≡ true)
    → (xs : List A) (ys : List B) → traverse f xs ≡ some ys
    → all p xs ≡ true
    → all q ys ≡ true
traverse-all f p q h [] ys e t = subst (λ z. all q z ≡ true) (some_inj e) refl
traverse-all f p q h (x ∷ xs) ys e t =
    let (b, m, n) = bind_some (f x) _ ys e in
    let (bs, r, s) = bind_some (traverse f xs) _ ys n in
    subst (λ z. all q z ≡ true) (some_inj s)
      (and-intro (h x b m (and-elim t).0) (traverse-all f p q h xs bs r (and-elim t).1))

module _ {ℓ} {A : Type ℓ} where
  pub count_if-remove_at_le :
      (p : A → Bool) (xs : List A) (i : ℕ) → count_if p (remove_at xs i) ≤ count_if p xs
  count_if-remove_at_le p [] i = omega arith
  count_if-remove_at_le p (x ∷ xs) zero = ground arith
  count_if-remove_at_le p (x ∷ xs) (suc i) = ground (arith, count_if-remove_at_le p xs i)

  pub length-remove_at :
      (xs : List A) (i : ℕ) {a : A}
      → get_elem? xs i ≡ some a
      → length xs ≡ suc (length (remove_at xs i))
  length-remove_at [] i h = absurd (cc)
  length-remove_at (x ∷ xs) zero h = refl
  length-remove_at (x ∷ xs) (suc i) h = ap suc (length-remove_at xs i h)

  pub count_if_mono :
      (p q : A → Bool)
      → ((a : A) → p a ≡ true → q a ≡ true)
      → (xs : List A) → count_if p xs ≤ count_if q xs
  count_if_mono p q h [] = omega arith
  count_if_mono p q h (x ∷ xs) = one_more (p x) (q x) (h x) (count_if_mono p q h xs)
    where
      one_more :
          (b c : Bool)
          → (b ≡ true → c ≡ true)
          → {m n : ℕ} → m ≤ n
          → (if b then 1 else 0) + m ≤ (if c then 1 else 0) + n
      one_more false c k e = ground arith
      one_more true true k e = omega arith
      one_more true false k e = ground (arith, k refl)
