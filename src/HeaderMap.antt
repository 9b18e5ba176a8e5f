-- ===== src/HeaderMap.antt =====
-- The header map of the http crate as far as rpxy-lib/src/message_handler/header_ops/ uses it: the
-- field lines of each name, in order. A name is in lower case, as the crate keeps it. The checks of
-- header values are the crate's and parameters.
pub mod Joined
use rust_rpxy.Common.{
  Bool, true, false, Option, none, some, List, [], ◌∷◌, ◌++◌, if◌then◌else◌, and_then, Bytes, bytes,
  bytes_eq,
}

abbrev pub HeaderMap : Type 0
HeaderMap = Bytes → List Bytes

-- `HeaderValue::to_str`, `HeaderValue::from_str` and `HeaderValue::from_bytes`.
pub record HeaderValues : Type 0 where
  pub to_str : Bytes → Option Bytes
  pub from_str : Bytes → Option Bytes
  pub from_bytes : Bytes → Option Bytes

abbrev pub first : List Bytes → Option Bytes
first [] = none
first (v ∷ vs) = some v

abbrev pub get : HeaderMap → Bytes → Option Bytes
get headers key = first (headers key)

abbrev is_present : List Bytes → Bool
is_present [] = false
is_present (v ∷ vs) = true

abbrev pub contains_key : HeaderMap → Bytes → Bool
contains_key headers key = is_present (headers key)

-- `insert` replaces all values of the name, and `remove` removes all of them.
unfoldable pub set_lines : HeaderMap → Bytes → List Bytes → HeaderMap
set_lines headers key lines name = if bytes_eq name key then lines else headers name

abbrev pub insert : HeaderMap → Bytes → Bytes → HeaderMap
insert headers key value = set_lines headers key (value ∷ [])

abbrev pub remove : HeaderMap → Bytes → HeaderMap
remove headers key = set_lines headers key []

join_rest : HeaderValues → Bytes → List Bytes → Option Bytes
join_rest values joined [] = some joined
join_rest values joined (v ∷ vs) =
    and_then (values.to_str v) (λ s. join_rest values (joined ++ bytes ", " ++ s) vs)

join_lines : HeaderValues → List Bytes → Option (Option Bytes)
unfolding join_rest
join_lines values [] = some none
join_lines values (v ∷ vs) =
    and_then (values.to_str v)
      (λ s. and_then (join_rest values s vs) (λ joined. some (some joined)))

-- `join_header_values` of forwarding.rs; the outer `none` is an unreadable value.
unfoldable pub join_header_values : HeaderValues → HeaderMap → Bytes → Option (Option Bytes)
unfolding join_lines
join_header_values values headers key = join_lines values (headers key)

-- `add_header_entry_overwrite_if_exist` of common.rs: a value is made by `from_str` for a new name and
-- by `from_bytes` for a known one.
unfoldable pub add_header_entry_overwrite_if_exist :
    HeaderValues → HeaderMap → Bytes → Bytes → Option HeaderMap
add_header_entry_overwrite_if_exist values headers key value =
    if contains_key headers key
    then and_then (values.from_bytes value) (λ v. some (insert headers key v))
    else and_then (values.from_str value) (λ v. some (insert headers key v))

text_or_empty : Option Bytes → Bytes
text_or_empty none = []
text_or_empty (some s) = s

pub join_cookies : HeaderValues → List Bytes → Bytes
unfolding text_or_empty
join_cookies values [] = []
join_cookies values (v ∷ []) = text_or_empty (values.to_str v)
join_cookies values (v ∷ w ∷ vs) =
    text_or_empty (values.to_str v) ++ bytes "; " ++ join_cookies values (w ∷ vs)

abbrev pub cookie : Bytes
cookie = bytes "cookie"

unfoldable pub merge_cookies : HeaderValues → HeaderMap → List Bytes → Option HeaderMap
unfolding join_cookies
merge_cookies values headers [] = some headers
merge_cookies values headers (v ∷ []) = some headers
merge_cookies values headers (v ∷ w ∷ vs) =
    and_then (values.from_bytes (join_cookies values (v ∷ w ∷ vs)))
      (λ joined. some (insert (remove headers cookie) cookie joined))

-- `make_cookie_single_line` of common.rs.
unfoldable pub make_cookie_single_line : HeaderValues → HeaderMap → Option HeaderMap
unfolding merge_cookies
make_cookie_single_line values headers = merge_cookies values headers (headers cookie)
