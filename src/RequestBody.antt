-- ===== src/RequestBody.antt =====
-- The size limit of a request body: `LimitedBody` of rpxy-lib/src/hyper_ext/body_type.rs. The body
-- inside is the list of the results that its polls give; past its end it stays at its end.
pub mod Capped
use rust_rpxy.Common.{
  ℕ, zero, suc, ◌+◌, ◌≡◌, Bool, true, false, ◌||◌, Option, none, some, List, [], ◌∷◌, min,
  if◌then◌else◌, ltb, length, usize_max, Bytes,
}

pub data Frame : Type 0 where
  data_frame trailers : Bytes → Frame

pub data BodyError : Type 0 where
  inner_error : BodyError
  request_body_too_large : ℕ → ℕ → BodyError

-- `Poll<Option<Result<Frame, _>>>`.
pub data Polled : Type 0 where
  pending ended : Polled
  failed : BodyError → Polled
  ready : Frame → Polled

pub record LimitedBody : Type 0 where
  pub inner : List Polled
  pub limit : Option ℕ
  pub received : ℕ
  pub tripped : Bool

unfoldable pub new_body : List Polled → Option ℕ → LimitedBody
new_body inner limit = record { inner = inner; limit = limit; received = 0; tripped = false }

abbrev pub next_inner : List Polled → Polled
next_inner [] = ended
next_inner (p ∷ inner) = p

abbrev pub rest_inner : List Polled → List Polled
rest_inner [] = []
rest_inner (p ∷ inner) = inner

-- A data frame under a limit.
count_data : LimitedBody → ℕ → Bytes → LimitedBody × Polled
count_data body limit bytes =
    let received = min (body.received + length bytes) usize_max in
    if ltb limit received
    then (
      record body { received = received; tripped = true },
      failed (request_body_too_large received limit),
    )
    else (record body { received = received }, ready (data_frame bytes))

-- What the poll of the inner body gave, under a limit; `body` has the rest of the inner body.
limit_frame : LimitedBody → ℕ → Polled → LimitedBody × Polled
unfolding count_data
limit_frame body limit pending = (body, pending)
limit_frame body limit ended = (body, ended)
limit_frame body limit (failed e) = (body, failed e)
limit_frame body limit (ready (trailers t)) = (body, ready (trailers t))
limit_frame body limit (ready (data_frame bytes)) = count_data body limit bytes

poll_inner : LimitedBody → Option ℕ → LimitedBody × Polled
unfolding limit_frame
poll_inner body none = (record body { inner = rest_inner body.inner }, next_inner body.inner)
poll_inner body (some limit) =
    limit_frame (record body { inner = rest_inner body.inner }) limit (next_inner body.inner)

-- `LimitedBody::poll_frame`.
pub poll_frame : LimitedBody → LimitedBody × Polled
unfolding poll_inner
poll_frame body = if body.tripped then (body, ended) else poll_inner body body.limit

inner_ended : List Polled → Bool
inner_ended [] = true
inner_ended (p ∷ inner) = false

pub is_end_stream : LimitedBody → Bool
unfolding inner_ended
is_end_stream body = body.tripped || inner_ended body.inner

-- The results of the first polls.
unfoldable pub polls : ℕ → LimitedBody → List Polled
unfolding poll_frame
polls zero body = []
polls (suc n) body = let (body', p) = poll_frame body in p ∷ polls n body'
