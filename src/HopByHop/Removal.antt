-- ===== src/HopByHop/Removal.antt =====
-- Which headers are left after both removals.
use rust_rpxy.Common.{
  ◌≡◌, refl, ap, ◌∙◌, Bool, true, false, ◌||◌, Option, none, some, List, [], ◌∷◌, ◌++◌, map,
  if◌then◌else◌, Bytes, bytes_eq, to_ascii_lowercase, Bool-cases, inl, inr,
}
use rust_rpxy.HeaderMap.{HeaderMap, HeaderValues, set_lines, remove, get}
use rust_rpxy.HopByHop.{
  connection, hop_headers, later_hop_headers, remove_listed, listed_names, remove_connection,
  remove_connection_header, remove_all, remove_hop_header,
}

abbrev pub is_one_of : Bytes → List Bytes → Bool
is_one_of name [] = false
is_one_of name (key ∷ keys) = bytes_eq name key || is_one_of name keys

-- The field lines of a name, unless it is one of the keys.
abbrev pub lines_without : List Bytes → HeaderMap → HeaderMap
lines_without keys headers name = if is_one_of name keys then [] else headers name

without_step :
    (headers : HeaderMap) (key : Bytes) (keys : List Bytes) (name : Bytes)
    → lines_without keys (remove headers key) name ≡ lines_without (key ∷ keys) headers name
unfolding set_lines
without_step headers key keys name = elim (Bool-cases (bytes_eq name key)) [
  | inl h ↦ rw h (collapse (is_one_of name keys))
  | inr h ↦ rw h refl
]
  where
    none_left : List Bytes
    none_left = []

    collapse : (b : Bool) → (if b then none_left else none_left) ≡ none_left
    collapse true = refl
    collapse false = refl

remove_all_lem :
    (headers : HeaderMap) (keys : List Bytes) (name : Bytes)
    → remove_all headers keys name ≡ lines_without keys headers name
unfolding remove_all
remove_all_lem headers [] name = refl
remove_all_lem headers (key ∷ keys) name =
    remove_all_lem (remove headers key) keys name ∙ without_step headers key keys name

remove_listed_lem :
    (headers : HeaderMap) (ms : List Bytes) (name : Bytes)
    → remove_listed headers ms name ≡ lines_without (map to_ascii_lowercase ms) headers name
unfolding remove_listed
remove_listed_lem headers [] name = refl
remove_listed_lem headers (m ∷ ms) name =
    remove_listed_lem (remove headers (to_ascii_lowercase m)) ms name
    ∙ without_step headers (to_ascii_lowercase m) (map to_ascii_lowercase ms) name

abbrev lowered_names : HeaderValues → Option Bytes → List Bytes
lowered_names values none = []
lowered_names values (some v) = map to_ascii_lowercase (listed_names (values.to_str v))

-- The names that the first `Connection` line lists.
abbrev pub first_listed : HeaderValues → HeaderMap → List Bytes
first_listed values headers = lowered_names values (get headers connection)

without-append :
    (ks ls : List Bytes) (headers : HeaderMap) (name : Bytes)
    → lines_without ks (lines_without ls headers) name ≡ lines_without (ks ++ ls) headers name
without-append [] ls headers name = refl
without-append (k ∷ ks) ls headers name = elim (Bool-cases (bytes_eq name k)) [
  | inl h ↦ rw h refl
  | inr h ↦ rw h (without-append ks ls headers name)
]

-- A name that is left out anyway may be removed before.
without-removed :
    (k : Bytes) (ks : List Bytes) (headers : HeaderMap) (name : Bytes)
    → lines_without (k ∷ ks) (remove headers k) name ≡ lines_without (k ∷ ks) headers name
unfolding set_lines
without-removed k ks headers name = elim (Bool-cases (bytes_eq name k)) [
  | inl h ↦ rw h refl
  | inr h ↦ rw h refl
]

pointwise :
    (ks : List Bytes) (g h : HeaderMap) (name : Bytes)
    → g name ≡ h name
    → lines_without ks g name ≡ lines_without ks h name
pointwise ks g h name e = ap (λ v. if is_one_of name ks then [] else v) e

both :
    (values : HeaderValues) (headers : HeaderMap) (o : Option Bytes) (name : Bytes)
    → lines_without hop_headers (remove_connection values headers o) name
      ≡ lines_without (hop_headers ++ lowered_names values o) headers name
unfolding remove_connection
both values headers none name = without-append hop_headers [] headers name
both values headers (some v) name =
    let listed = listed_names (values.to_str v) in
    let names = map to_ascii_lowercase listed in
    pointwise hop_headers (remove_listed (remove headers connection) listed)
      (lines_without names (remove headers connection)) name
      (remove_listed_lem (remove headers connection) listed name)
    ∙ without-append hop_headers names (remove headers connection) name
    ∙ without-removed connection (later_hop_headers ++ names) headers name

-- After `remove_connection_header` and `remove_hop_header` a name has no line if it is a hop-by-hop one
-- or the first `Connection` line lists it, and the lines it had otherwise.
pub removal_lem :
    (values : HeaderValues) (headers : HeaderMap) (name : Bytes)
    → remove_hop_header (remove_connection_header values headers) name
      ≡ lines_without (hop_headers ++ first_listed values headers) headers name
unfolding remove_hop_header remove_connection_header
removal_lem values headers name =
    remove_all_lem (remove_connection values headers (get headers connection)) hop_headers name
    ∙ both values headers (get headers connection) name
