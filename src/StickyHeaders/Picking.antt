-- ===== src/StickyHeaders/Picking.antt =====
-- Entries of a list that pass a test, and prefixes: what the proofs about sticky cookies use.
use rust_rpxy.Common.{
  ◌≡◌, refl, ap, Bool, true, false, not, List, [], ◌∷◌, ◌++◌, all, arith, Bytes, starts_with,
}
use rust_rpxy.StickyHeaders.{filter}

pub starts_with-append : (p s : Bytes) → starts_with (p ++ s) p ≡ true
starts_with-append [] s = refl
starts_with-append (c ∷ p) s = ground (arith, starts_with-append p s)

filter_none :
    (f : Bytes → Bool) (xs : List Bytes) → all (λ c. not (f c)) xs ≡ true → filter f xs ≡ []
filter_none f [] h = refl
filter_none f (x ∷ xs) h = ground (arith, filter_none f xs)

pub filter_one :
    (f : Bytes → Bool) (xs : List Bytes) (y : Bytes) (ys : List Bytes)
    → all (λ c. not (f c)) xs ≡ true
    → f y ≡ true
    → all (λ c. not (f c)) ys ≡ true
    → filter f (xs ++ y ∷ ys) ≡ y ∷ []
filter_one f [] y ys h t k = rw (t, filter_none f ys k) refl
filter_one f (x ∷ xs) y ys h t k = ground (arith, filter_one f xs y ys)

filter-all : (f : Bytes → Bool) (xs : List Bytes) → all f xs ≡ true → filter f xs ≡ xs
filter-all f [] h = refl
filter-all f (x ∷ xs) h = ground (arith, filter-all f xs)

pub filter_others :
    (f : Bytes → Bool) (xs : List Bytes) (y : Bytes) (ys : List Bytes)
    → all f xs ≡ true
    → f y ≡ false
    → all f ys ≡ true
    → filter f (xs ++ y ∷ ys) ≡ xs ++ ys
filter_others f [] y ys h t k = rw (t, filter-all f ys k) refl
filter_others f (x ∷ xs) y ys h t k = ground (arith, filter_others f xs y ys)

pub append_assoc : (xs ys zs : Bytes) → xs ++ (ys ++ zs) ≡ (xs ++ ys) ++ zs
append_assoc [] ys zs = refl
append_assoc (x ∷ xs) ys zs = ap (◌∷◌ x) (append_assoc xs ys zs)
