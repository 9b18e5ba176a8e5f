-- ===== src/HeaderText/Splitting.antt =====
-- `str::split` and the joining of its parts, and `trim` of text without white space.
use rust_rpxy.Common.{
  ℕ, ◌≡◌, refl, ap, sym, ◌∙◌, Bool, true, not, List, [], ◌∷◌, ◌++◌, arith, all, ◌==◌, Bytes, some,
  Bool-cases, inl, inr, ==_iff, none,
}
use rust_rpxy.HeaderText.{
  is_whitespace, trim, trim_start, trim_end, split, segment_cons, split_once, cons_first,
}

abbrev pub join : ℕ → List Bytes → Bytes
join p [] = []
join p (l ∷ []) = l
join p (l ∷ m ∷ ls) = l ++ p ∷ join p (m ∷ ls)

abbrev pub is_free : ℕ → Bytes → Bool
is_free p s = all (λ c. not (c == p)) s

pub record Parts (p : ℕ) (s : Bytes) : Type 0 where
  pub head : Bytes
  pub tail : List Bytes
  pub are : split p s ≡ head ∷ tail
  pub joined : join p (head ∷ tail) ≡ s

-- A byte before the first part.
join-segment_cons :
    (p c : ℕ) (h : Bytes) (t : List Bytes) → join p ((c ∷ h) ∷ t) ≡ c ∷ join p (h ∷ t)
join-segment_cons p c h [] = refl
join-segment_cons p c h (m ∷ ls) = refl

pub split-Parts : (p : ℕ) (s : Bytes) → Parts p s
unfolding split segment_cons
split-Parts p [] = record { head = []; tail = []; are = refl; joined = refl }
split-Parts p (c ∷ s) = elim (Bool-cases (c == p)) [
  | inl e ↦
      let r = split-Parts p s in
      record {
        head = [];
        tail = r.head ∷ r.tail;
        are = rw (e, r.are) refl;
        joined = ap (◌∷◌ p) r.joined ∙ ap (λ x. x ∷ s) (sym ((==_iff c p).0 e));
      }
  | inr e ↦
      let r = split-Parts p s in
      record {
        head = c ∷ r.head;
        tail = r.tail;
        are = rw (e, r.are) refl;
        joined = join-segment_cons p c r.head r.tail ∙ ap (◌∷◌ c) r.joined;
      }
]

pub join-split : (p : ℕ) (s : Bytes) → join p (split p s) ≡ s
join-split p s = let r = split-Parts p s in rw r.are r.joined

pub split-free : (p : ℕ) (l s : Bytes) → is_free p l ≡ true → split p (l ++ p ∷ s) ≡ l ∷ split p s
unfolding split segment_cons
split-free p [] s h = ground arith
split-free p (c ∷ l) s h = ground (arith, split-free p l s)

pub split_all : (p : ℕ) (l : Bytes) → is_free p l ≡ true → split p l ≡ l ∷ []
unfolding split segment_cons
split_all p [] h = refl
split_all p (c ∷ l) h = ground (arith, split_all p l)

pub split_once-nil : (p : ℕ) → split_once p [] ≡ none
unfolding split_once
split_once-nil p = refl

pub split_once-free :
    (p : ℕ) (l s : Bytes) → is_free p l ≡ true → split_once p (l ++ p ∷ s) ≡ some (l, s)
unfolding split_once cons_first
split_once-free p [] s h = ground arith
split_once-free p (c ∷ l) s h = ground (arith, split_once-free p l s)

abbrev pub all_free : ℕ → List Bytes → Bool
all_free p ls = all (is_free p) ls

pub split-join :
    (p : ℕ) (l : Bytes) (ls : List Bytes)
    → all_free p (l ∷ ls) ≡ true
    → split p (join p (l ∷ ls)) ≡ l ∷ ls
split-join p l [] h = split_all p l (ground arith)
split-join p l (m ∷ ls) h =
    split-free p l (join p (m ∷ ls)) (ground arith) ∙ ap (◌∷◌ l) (split-join p m ls (ground arith))

abbrev pub no_whitespace : Bytes → Bool
no_whitespace s = all (λ c. not (is_whitespace c)) s

trim_end_id : (s : Bytes) → no_whitespace s ≡ true → trim_end s ≡ s
unfolding trim_end
trim_end_id [] h = refl
trim_end_id (c ∷ s) h = ground (arith, trim_end_id s)

trim_start_id : (s : Bytes) → no_whitespace s ≡ true → trim_start s ≡ s
unfolding trim_start
trim_start_id [] h = refl
trim_start_id (c ∷ s) h = ground arith

pub trim_id : (s : Bytes) → no_whitespace s ≡ true → trim s ≡ s
unfolding trim
trim_id s h = rw (trim_start_id s h) (trim_end_id s h)
