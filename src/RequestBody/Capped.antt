-- ===== src/RequestBody/Capped.antt =====
-- What the consumer of a limited body sees.
use rust_rpxy.Common.{
  ℕ, zero, suc, ◌+◌, ◌-◌, ◌≡◌, ◌≤◌, ◌<◌, refl, Bool, true, false, none, some, List, [], ◌∷◌, arith,
  ltb, length, usize_max, min, Bytes, Bool-cases, inl, inr, ap, ◌⊎◌,
}
use rust_rpxy.RequestBody.{
  data_frame, trailers, inner_error, request_body_too_large, Polled, pending, ended, failed, ready,
  LimitedBody, new_body, count_data, polls,
}

abbrev pub data_length : Polled → ℕ
data_length (ready (data_frame bytes)) = length bytes
data_length _ = 0

-- The bytes of the data frames.
abbrev pub data_bytes : List Polled → ℕ
data_bytes [] = 0
data_bytes (p ∷ ps) = data_length p + data_bytes ps

abbrev pub AllEnded : List Polled → Type 0
AllEnded [] = Unit
AllEnded (ended ∷ ps) = AllEnded ps
AllEnded (_ ∷ ps) = ⊥

-- After the overrun there is only the end.
abbrev pub EndsAtOverrun : List Polled → Type 0
EndsAtOverrun [] = Unit
EndsAtOverrun (failed (request_body_too_large r l) ∷ ps) = AllEnded ps
EndsAtOverrun (_ ∷ ps) = EndsAtOverrun ps

abbrev at : List Polled → ℕ → ℕ → LimitedBody
at inner limit received = record {
  inner = inner;
  limit = some limit;
  received = received;
  tripped = false;
}

abbrev tripped_at : List Polled → ℕ → ℕ → LimitedBody
tripped_at inner limit received = record {
  inner = inner;
  limit = some limit;
  received = received;
  tripped = true;
}

tripped-AllEnded :
    (n : ℕ) (inner : List Polled) (l r : ℕ) → AllEnded (polls n (tripped_at inner l r))
unfolding polls
tripped-AllEnded zero inner l r = tt
tripped-AllEnded (suc n) inner l r = tripped-AllEnded n inner l r

tripped-data_bytes :
    (n : ℕ) (inner : List Polled) (l r : ℕ) → data_bytes (polls n (tripped_at inner l r)) ≡ 0
unfolding polls
tripped-data_bytes zero inner l r = refl
tripped-data_bytes (suc n) inner l r = omega (arith, tripped-data_bytes n inner l r)

abbrev is_plain : Polled → Bool
is_plain (failed (request_body_too_large r l)) = false
is_plain (ready (data_frame bytes)) = false
is_plain _ = true

-- The inner body knows no limit of its own.
abbrev pub no_overrun : List Polled → Bool
no_overrun [] = true
no_overrun (failed (request_body_too_large r l) ∷ ps) = false
no_overrun (_ ∷ ps) = no_overrun ps

abbrev Capped : ℕ → List Polled → Type 0
Capped room ps = (data_bytes ps ≤ room) × EndsAtOverrun ps

-- The poll of a data frame, under the limit or over it.
data-poll :
    (l r : ℕ) (inner : List Polled) (bytes : Bytes)
    → l < usize_max
    → (count_data (at inner l r) l bytes
          ≡ (at inner l (r + length bytes), ready (data_frame bytes)))
        × (r + length bytes ≤ l)
      ⊎ ((r' : ℕ) × (count_data (at inner l r) l bytes
            ≡ (tripped_at inner l r', failed (request_body_too_large r' l)))
          × (l < r + length bytes))
unfolding count_data
data-poll l r inner bytes h = elim (Bool-cases (ltb l (min (r + length bytes) usize_max))) [
  | inl over ↦ inr (min (r + length bytes) usize_max, rw over, ground arith)
  | inr within ↦
      inl (
        rw within (ap (λ x. (at inner l x, ready (data_frame bytes))) (exact within)),
        ground arith,
      )
]
  where
    exact :
        ltb l (min (r + length bytes) usize_max) ≡ false
        → min (r + length bytes) usize_max ≡ r + length bytes
    exact e = ground arith

-- An entry that carries no data and no overrun.
skip-Capped :
    (p : Polled) (ps : List Polled) (room : ℕ)
    → is_plain p ≡ true
    → Capped room ps
    → Capped room (p ∷ ps)
skip-Capped pending ps room e h = (omega arith, h.1)
skip-Capped ended ps room e h = (omega arith, h.1)
skip-Capped (failed inner_error) ps room e h = (omega arith, h.1)
skip-Capped (failed (request_body_too_large r l)) ps room e h = cc
skip-Capped (ready (trailers t)) ps room e h = (omega arith, h.1)
skip-Capped (ready (data_frame bytes)) ps room e h = cc

step-Capped :
    (n : ℕ) (inner : List Polled) (l r room : ℕ) (bytes : Bytes)
    → l < usize_max
    → r + room ≡ l
    → ((r room : ℕ) → r + room ≡ l → Capped room (polls n (at inner l r)))
    → Capped room (polls (suc n) (at (ready (data_frame bytes) ∷ inner) l r))
unfolding polls
step-Capped n inner l r room bytes h e ih = elim (data-poll l r inner bytes h) [
  | inl (q, le) ↦
      let next = ih (r + length bytes) (room - length bytes) (omega arith) in
      rw q (omega arith, next.1)
  | inr (r', q, lt) ↦
      rw q (omega (arith, tripped-data_bytes n inner l r'), tripped-AllEnded n inner l r')
]

polls-Capped :
    (n : ℕ) (inner : List Polled) (l r room : ℕ)
    → no_overrun inner ≡ true
    → l < usize_max
    → r + room ≡ l
    → Capped room (polls n (at inner l r))
unfolding polls
polls-Capped zero inner l r room c h e = (omega arith, tt)
polls-Capped (suc n) [] l r room c h e =
    skip-Capped ended _ room refl (polls-Capped n [] l r room c h e)
polls-Capped (suc n) (pending ∷ inner) l r room c h e =
    skip-Capped pending _ room refl (polls-Capped n inner l r room c h e)
polls-Capped (suc n) (ended ∷ inner) l r room c h e =
    skip-Capped ended _ room refl (polls-Capped n inner l r room c h e)
polls-Capped (suc n) (failed inner_error ∷ inner) l r room c h e =
    skip-Capped (failed inner_error) _ room refl (polls-Capped n inner l r room c h e)
polls-Capped (suc n) (failed (request_body_too_large a b) ∷ inner) l r room c h e = cc
polls-Capped (suc n) (ready (trailers t) ∷ inner) l r room c h e =
    skip-Capped (ready (trailers t)) _ room refl (polls-Capped n inner l r room c h e)
polls-Capped (suc n) (ready (data_frame bytes) ∷ inner) l r room c h e =
    step-Capped n inner l r room bytes h e (λ r' room' e'. polls-Capped n inner l r' room' c h e')

abbrev free : List Polled → LimitedBody
free inner = record { inner = inner; limit = none; received = 0; tripped = false }

polls_within :
    (n : ℕ) (inner : List Polled) (l r : ℕ)
    → l < usize_max
    → r + data_bytes inner ≤ l
    → polls n (at inner l r) ≡ polls n (free inner)
unfolding polls
polls_within zero inner l r h e = refl
polls_within (suc n) [] l r h e = ap (◌∷◌ ended) (polls_within n [] l r h e)
polls_within (suc n) (pending ∷ inner) l r h e =
    ap (◌∷◌ pending) (polls_within n inner l r h (omega arith))
polls_within (suc n) (ended ∷ inner) l r h e =
    ap (◌∷◌ ended) (polls_within n inner l r h (omega arith))
polls_within (suc n) (failed x ∷ inner) l r h e =
    ap (◌∷◌ (failed x)) (polls_within n inner l r h (omega arith))
polls_within (suc n) (ready (trailers t) ∷ inner) l r h e =
    ap (◌∷◌ (ready (trailers t))) (polls_within n inner l r h (omega arith))
polls_within (suc n) (ready (data_frame bytes) ∷ inner) l r h e =
    elim (data-poll l r inner bytes h) [
      | inl (q, le) ↦ rw q (
          ap (◌∷◌ (ready (data_frame bytes)))
            (polls_within n inner l (r + length bytes) h (omega arith)))
      | inr (r', q, lt) ↦ absurd (omega arith)
    ]

-- With a limit below the largest `usize`, the data frames that any number of polls give stay within the
-- limit in sum, and after an overrun the polls give nothing but the end; a body within the limit is
-- passed on as it is without one.
pub polls_limited :
    (n : ℕ) (inner : List Polled) (limit : ℕ)
    → no_overrun inner ≡ true
    → limit < usize_max
    → (data_bytes (polls n (new_body inner (some limit))) ≤ limit)
      × EndsAtOverrun (polls n (new_body inner (some limit)))
      × ((limit < data_bytes inner)
          ⊎ (polls n (new_body inner (some limit)) ≡ polls n (new_body inner none)))
unfolding new_body
polls_limited n inner limit c h =
    let capped = polls-Capped n inner limit 0 limit c h (omega arith) in
    (
      capped.0,
      capped.1,
      elim (Bool-cases (ltb limit (data_bytes inner))) [
        | inl over ↦ inl (ground arith)
        | inr within ↦ inr (polls_within n inner limit 0 h (ground arith))
      ],
    )
