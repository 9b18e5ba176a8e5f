-- ===== src/Examples/Routing.antt =====
-- Routes at concrete paths: rpxy-lib/src/backend/upstream.rs.
use rust_rpxy.Common.{ℕ, ◌≡◌, ◌⊎◌, inl, inr, refl, none, some, List, [], ◌∷◌, arith, bytes}
use rust_rpxy.Route.{PathName, get, matches}
use rust_rpxy.Route.Longest.{In, NoneMatches, Longest, IsMap, SameEntries, get_lem, get-SameEntries}

abbrev routes : List (PathName × ℕ)
routes = (bytes "/", 0) ∷ (bytes "/foo", 1) ∷ (bytes "/foo/bar", 2) ∷ []

abbrev reversed : List (PathName × ℕ)
reversed = (bytes "/foo/bar", 2) ∷ (bytes "/foo", 1) ∷ (bytes "/", 0) ∷ []

-- The paths of the source's test.
routes_tests :
    (get (bytes "/foo") routes ≡ some (bytes "/foo", 1))
    × (get (bytes "/foo/x") routes ≡ some (bytes "/foo", 1))
    × (get (bytes "/foobar") routes ≡ some (bytes "/", 0))
    × (get (bytes "/foo/bar/x") reversed ≡ some (bytes "/foo/bar", 2))
unfolding get matches
routes_tests = (refl, refl, refl, refl)

get_lem_example :
    ((get (bytes "/foo/x") routes ≡ none) × NoneMatches (bytes "/foo/x") routes)
    ⊎ ((r : PathName) × (v : ℕ) × (get (bytes "/foo/x") routes ≡ some (r, v))
        × Longest (bytes "/foo/x") routes r v)
get_lem_example = get_lem (bytes "/foo/x") routes

routes-IsMap : IsMap routes
routes-IsMap r v w p q = ground arith

routes-SameEntries : SameEntries routes reversed
routes-SameEntries r v = (to, from)
  where
    to : In (r, v) routes → In (r, v) reversed
    to (inl e) = inr (inr (inl e))
    to (inr (inl e)) = inr (inl e)
    to (inr (inr (inl e))) = inl e
    to (inr (inr (inr h))) = absurd h

    from : In (r, v) reversed → In (r, v) routes
    from (inl e) = inr (inr (inl e))
    from (inr (inl e)) = inr (inl e)
    from (inr (inr (inl e))) = inl e
    from (inr (inr (inr h))) = absurd h

get-SameEntries_example : get (bytes "/foo/x") routes ≡ get (bytes "/foo/x") reversed
get-SameEntries_example =
    get-SameEntries (bytes "/foo/x") routes reversed routes-IsMap routes-SameEntries
