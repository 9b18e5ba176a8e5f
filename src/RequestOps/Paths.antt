-- ===== src/RequestOps/Paths.antt =====
-- The path that goes to the upstream: rpxy-lib/src/message_handler/handler_manipulate_messages.rs with
-- the route that rpxy-lib/src/backend/upstream.rs chose.
use rust_rpxy.Common.{
  ◌≡◌, refl, ap, ◌∙◌, true, false, some, [], ◌∷◌, ◌++◌, append_assoc, arith, length, drop, leb,
  Bytes, starts_with, starts_with_iff, length-append,
}
use rust_rpxy.HeaderText.{is_empty}
use rust_rpxy.Route.{matches}
use rust_rpxy.RequestOps.{Uri, replace_matched, rebuild_path_and_query}

matched_prefix : (path route : Bytes) → matches path route ≡ true → starts_with path route ≡ true
unfolding matches
matched_prefix path route h = ground arith

drop-append : (r t : Bytes) → drop (length r) (r ++ t) ≡ t
drop-append [] t = refl
drop-append (c ∷ r) t = drop-append r t

replace-prefix :
    (route rest new_path : Bytes)
    → is_empty route ≡ false
    → replace_matched (route ++ rest) new_path route ≡ some (new_path ++ rest)
unfolding replace_matched
replace-prefix route rest new_path h = rw (h, fits, drop-append route rest) refl
  where
    fits : leb (length route) (length (route ++ rest)) ≡ true
    fits = ground (arith, length-append route rest)

-- With `replace_path`, the path of a request that the route matched goes on with the route replaced and
-- with what followed it, the query included.
pub rebuild-matches :
    (uri : Uri) (new_path route query : Bytes)
    → matches uri.path route ≡ true
    → is_empty route ≡ false
    → uri.path_and_query ≡ some (uri.path ++ query)
    → rebuild_path_and_query uri (some new_path) route
      ≡ some (new_path ++ (drop (length route) uri.path ++ query))
unfolding rebuild_path_and_query
rebuild-matches uri new_path route query m n e =
    let rest = drop (length route) uri.path in
    rw e (
      ap (λ s. replace_matched (s ++ query) new_path route)
        ((starts_with_iff uri.path route).0 (matched_prefix uri.path route m))
      ∙ ap (λ s. replace_matched s new_path route) (append_assoc route rest query)
      ∙ replace-prefix route (rest ++ query) new_path n)
