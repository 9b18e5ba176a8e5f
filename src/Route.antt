-- ===== src/Route.antt =====
-- Names of rpxy-lib/src/name_exp.rs, and `PathManager` of rpxy-lib/src/backend/upstream.rs. A
-- `HashMap` of routes is the list of its entries in the order of iteration, which the code cannot know.
pub mod Longest
use rust_rpxy.Common.{
  ℕ, zero, suc, ◌≡◌, Bool, true, false, ◌&&◌, ◌||◌, Option, none, some, List, [], ◌∷◌,
  if◌then◌else◌, ◌==◌, leb, length, get_elem?, Bytes, starts_with, to_ascii_lowercase, bytes_eq,
}

pub record ServerName : Type 0 where
  pub inner : Bytes

-- The conversions of `&str`, `&[u8]` and `Vec<u8>` all lowercase.
unfoldable pub server_name : Bytes → ServerName
server_name s = record { inner = to_ascii_lowercase s }

abbrev pub PathName : Type 0
PathName = Bytes

-- `to_path_name`, from `&str`: the bytes as they are.
unfoldable pub path_name : Bytes → PathName
path_name s = s

-- What follows the route in the path: nothing, or a slash.
abbrev pub at_boundary : Option ℕ → Bool
at_boundary none = true
at_boundary (some p) = p == b'/'

-- The filter of `PathManager::get`.
unfoldable pub matches : Bytes → PathName → Bool
matches path route =
    starts_with path route && (length route == 1 || at_boundary (get_elem? path (length route)))

module _ {ℓ} {V : Type ℓ} where
  -- `max_by_key` of the lengths keeps the later of two entries of one length.
  longer : Option (PathName × V) → PathName × V → PathName × V
  longer none e = e
  longer (some (r, v)) (r', v') = if leb (length r) (length r') then (r', v') else (r, v)

  get_from : Bytes → Option (PathName × V) → List (PathName × V) → Option (PathName × V)
  get_from path best [] = best
  get_from path best ((r, v) ∷ es) =
      get_from path (if matches path r then some (longer best (r, v)) else best) es

  -- `PathManager::get`, with the route that was chosen.
  unfoldable pub get : Bytes → List (PathName × V) → Option (PathName × V)
  unfolding get_from longer
  get path routes = get_from path none routes

  -- `HashMap::insert`: a second value for a key replaces the first.
  unfoldable pub insert : PathName → V → List (PathName × V) → List (PathName × V)
  insert k v [] = (k, v) ∷ []
  insert k v ((j, w) ∷ m) = if bytes_eq j k then (k, v) ∷ m else (j, w) ∷ insert k v m
