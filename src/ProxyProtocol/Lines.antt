-- ===== src/ProxyProtocol/Lines.antt =====
-- The v1 reader against the first line of the stream.
use rust_rpxy.Common.{
  ℕ, suc, ◌+◌, ◌<◌, ◌≡◌, ◌⊎◌, inl, inr, refl, sym, ◌∙◌, ap, Bool, true, false, ◌&&◌, Option, none,
  some, [], ◌∷◌, ◌++◌, arith, if◌then◌else◌, ◌==◌, leb, ltb, length, take, drop, ◌-◌, Option-cases,
  Bytes, append_assoc, length-append, Bool-cases,
}
use rust_rpxy.ProxyProtocol.{
  Outcome, ok, err, ErrorKind, unexpected_eof, invalid_data, read_v1, v1_max_length,
}

-- The length of the stream's first line with its CR LF; `cr` says that a CR stands just before.
pub first_line : Bool → Bytes → Option ℕ
first_line cr [] = none
first_line cr (b ∷ s) =
    let rest = first_line (b == 13) s in
    if cr && b == 10 then some 1 else elim rest [ none ↦ none | some n ↦ some (suc n) ]

-- What the reader owes: the first line if it has at most 107 bytes; otherwise an error, after the whole
-- stream if that ends before 107 bytes, and after 107 bytes if not.
unfoldable pub v1_contract : Bytes → Option ℕ → Bytes → Outcome Bytes
v1_contract header (some n) s =
    if leb (length header + n) v1_max_length
    then ok (header ++ take n s) (drop n s)
    else err invalid_data (drop (v1_max_length - length header) s)
v1_contract header none s =
    if ltb (length header + length s) v1_max_length
    then err unexpected_eof []
    else err invalid_data (drop (v1_max_length - length header) s)

first_line_pos : (cr : Bool) (s : Bytes) (n : ℕ) → first_line cr s ≡ some n → 0 < n
unfolding first_line
first_line_pos cr [] n e = absurd (cc)
first_line_pos cr (b ∷ s) n e = elim (Option-cases (first_line (b == 13) s)) [
  | inl m ↦ ground arith
  | inr (k, m) ↦ ground arith
]

contract-suc :
    (header : Bytes) (b : ℕ) (s : Bytes) (n : ℕ)
    → suc (length header) < v1_max_length
    → v1_contract (header ++ b ∷ []) (some n) s ≡ v1_contract header (some (suc n)) (b ∷ s)
unfolding v1_contract
contract-suc header b s n h = elim (Bool-cases (leb (length header + suc n) v1_max_length)) [
  | inl e ↦
      rw (e, length-append header (b ∷ []))
        (rw (within e) (ap (λ x. ok x (drop n s)) (append_assoc header (b ∷ []) (take n s))))
  | inr e ↦
      rw (e, length-append header (b ∷ [])) (rw (beyond e) (ap (err invalid_data) (step-drop)))
]
  where
    within : leb (length header + suc n) 107 ≡ true → leb (length header + 1 + n) 107 ≡ true
    within e = ground arith

    beyond : leb (length header + suc n) 107 ≡ false → leb (length header + 1 + n) 107 ≡ false
    beyond e = ground arith

    step-drop : drop (107 - (length header + 1)) s ≡ drop (107 - length header) (b ∷ s)
    step-drop = let e : 107 - length header ≡ suc (107 - (length header + 1)) = omega arith in rw e

abbrev failed : ErrorKind → Bytes → Outcome Bytes
failed = err

contract-none :
    (header : Bytes) (b : ℕ) (s : Bytes)
    → suc (length header) < v1_max_length
    → v1_contract (header ++ b ∷ []) none s ≡ v1_contract header none (b ∷ s)
unfolding v1_contract
contract-none header b s h =
    rw (length-append header (b ∷ []))
      (by_length (Bool-cases (ltb (length header + suc (length s)) v1_max_length)))
  where
    step-drop : drop (107 - (length header + 1)) s ≡ drop (107 - length header) (b ∷ s)
    step-drop = let e : 107 - length header ≡ suc (107 - (length header + 1)) = omega arith in rw e

    by_length :
        (ltb (length header + suc (length s)) 107 ≡ true)
          ⊎ (ltb (length header + suc (length s)) 107 ≡ false)
        → (if ltb (length header + 1 + length s) 107
            then failed unexpected_eof []
            else err invalid_data (drop (107 - (length header + 1)) s))
          ≡ (if ltb (length header + suc (length s)) 107
              then failed unexpected_eof []
              else err invalid_data (drop (107 - length header) (b ∷ s)))
    by_length (inl e) = ground arith
    by_length (inr e) = ground (arith, step-drop)

-- At the limit without an end of line: the error, with the bytes read so far gone.
contract_full :
    (header : Bytes) (b : ℕ) (s : Bytes)
    → suc (length header) ≡ v1_max_length
    → (o : Option ℕ) → ((n : ℕ) → o ≡ some n → 1 < n)
    → v1_contract header o (b ∷ s) ≡ err invalid_data s
unfolding v1_contract
contract_full header b s h none p =
    let l : ltb (length header + suc (length s)) 107 ≡ false = ground arith in
    let d : 107 - length header ≡ 1 = omega arith in rw (l, d)
contract_full header b s h (some n) p =
    let q : 1 < n = p n refl in
    let l : leb (length header + n) 107 ≡ false = ground arith in
    let d : 107 - length header ≡ 1 = omega arith in rw (l, d)

read_v1-contract :
    (header : Bytes) (cr : Bool) (s : Bytes)
    → length header < v1_max_length
    → read_v1 header cr s ≡ v1_contract header (first_line cr s) s
unfolding read_v1 first_line
read_v1-contract header cr [] h = unfold v1_contract in ground arith
read_v1-contract header cr (b ∷ s) h = elim (Bool-cases (cr && b == 10)) [
  | inl e ↦ rw (e, read_v1, first_line) (ended e)
  | inr e ↦ elim (Bool-cases (leb v1_max_length (length (header ++ b ∷ [])))) [
    | inl full ↦
        rw (e, full)
          (sym (
            contract_full header b s (exact full) _ (more (Option-cases (first_line (b == 13) s)))))
    | inr room ↦
        rw (e, room)
          (read_v1-contract (header ++ b ∷ []) (b == 13) s (below room)
            ∙ going (Option-cases (first_line (b == 13) s)) (below room))
  ]
]
  where
    ended : cr && b == 10 ≡ true → ok (header ++ b ∷ []) s ≡ v1_contract header (some 1) (b ∷ s)
    ended e =
        let l : leb (length header + 1) 107 ≡ true = ground arith in unfold v1_contract in rw l

    exact : leb 107 (length (header ++ b ∷ [])) ≡ true → suc (length header) ≡ 107
    exact full = ground (arith, length-append header (b ∷ []))

    below : leb 107 (length (header ++ b ∷ [])) ≡ false → length (header ++ b ∷ []) < 107
    below room = ground arith

    more :
        (first_line (b == 13) s ≡ none) ⊎ ((n : ℕ) × (first_line (b == 13) s ≡ some n))
        → (n : ℕ) → (elim (first_line (b == 13) s) [ none ↦ none | some n ↦ some (suc n) ]) ≡ some n
        → 1 < n
    more (inl m) n e = ground arith
    more (inr (k, m)) n e = ground (arith, first_line_pos (b == 13) s k m)

    going :
        (first_line (b == 13) s ≡ none) ⊎ ((n : ℕ) × (first_line (b == 13) s ≡ some n))
        → length (header ++ b ∷ []) < 107
        → v1_contract (header ++ b ∷ []) (first_line (b == 13) s) s
          ≡ v1_contract header
              (elim (first_line (b == 13) s) [ none ↦ none | some n ↦ some (suc n) ])
              (b ∷ s)
    going (inl m) l = rw m (contract-none header b s (omega (arith, length-append header (b ∷ []))))
    going (inr (k, m)) l =
        rw m (contract-suc header b s k (omega (arith, length-append header (b ∷ []))))

-- For every stream the v1 reader keeps its contract: it takes exactly the first line if that has at
-- most 107 bytes with its CR LF, and reports an error otherwise.
pub read_v1_lem : (s : Bytes) → read_v1 [] false s ≡ v1_contract [] (first_line false s) s
read_v1_lem s = read_v1-contract [] false s (omega arith)
