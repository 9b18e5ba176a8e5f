-- ===== src/HopByHop.antt =====
-- rpxy-lib/src/message_handler/header_ops/hop.rs: the headers that do not go on to the upstream.
pub mod Removal
use rust_rpxy.Common.{
  ◌≡◌, Bool, true, false, Option, none, some, List, [], ◌∷◌, map, if◌then◌else◌, any, and_then,
  Bytes, bytes, to_ascii_lowercase,
}
use rust_rpxy.HeaderText.{trim, split, non_empty_trimmed, eq_ignore_ascii_case}
use rust_rpxy.HeaderMap.{HeaderMap, HeaderValues, get, remove}

abbrev pub connection : Bytes
connection = bytes "connection"

abbrev pub upgrade : Bytes
upgrade = bytes "upgrade"

-- A name given as text is looked up in lower case.
unfoldable pub remove_listed : HeaderMap → List Bytes → HeaderMap
remove_listed headers [] = headers
remove_listed headers (m ∷ ms) = remove_listed (remove headers (to_ascii_lowercase m)) ms

pub listed_names : Option Bytes → List Bytes
listed_names none = []
listed_names (some v) = non_empty_trimmed (split 44 v)

-- `remove` answers with the first of the values that it removes.
remove_connection : HeaderValues → HeaderMap → Option Bytes → HeaderMap
unfolding remove_listed listed_names
remove_connection values headers none = headers
remove_connection values headers (some v) =
    remove_listed (remove headers connection) (listed_names (values.to_str v))

unfoldable pub remove_connection_header : HeaderValues → HeaderMap → HeaderMap
unfolding remove_connection
remove_connection_header values headers = remove_connection values headers (get headers connection)

abbrev pub later_hop_headers : List Bytes
later_hop_headers =
    bytes "te"
    ∷ bytes "trailer"
    ∷ bytes "keep-alive"
    ∷ bytes "proxy-connection"
    ∷ bytes "proxy-authenticate"
    ∷ bytes "proxy-authorization"
    ∷ bytes "transfer-encoding"
    ∷ upgrade
    ∷ []

abbrev pub hop_headers : List Bytes
hop_headers = connection ∷ later_hop_headers

remove_all : HeaderMap → List Bytes → HeaderMap
remove_all headers [] = headers
remove_all headers (key ∷ keys) = remove_all (remove headers key) keys

unfoldable pub remove_hop_header : HeaderMap → HeaderMap
unfolding remove_all
remove_hop_header headers = remove_all headers hop_headers

text_or_empty : Option Bytes → Bytes
text_or_empty none = []
text_or_empty (some s) = s

has_upgrade_token : HeaderValues → Bytes → Bool
unfolding text_or_empty
has_upgrade_token values c =
    any (λ w. eq_ignore_ascii_case (trim w) upgrade) (split 44 (text_or_empty (values.to_str c)))

unfoldable pub extract_upgrade : HeaderValues → HeaderMap → Option Bytes
unfolding has_upgrade_token
extract_upgrade values headers =
    and_then (get headers connection) (λ c.
      if has_upgrade_token values c then and_then (get headers upgrade) values.to_str else none)
