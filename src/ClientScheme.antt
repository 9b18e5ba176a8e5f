-- ===== src/ClientScheme.antt =====
-- The client-visible scheme, `client_visible_scheme` of
-- rpxy-lib/src/message_handler/header_ops/forwarding.rs, which the sticky cookie's `Secure` attribute
-- and the cache key use. An unreadable header is `none`.
pub mod Reading
pub mod Naming
pub mod FailClosed
use rust_rpxy.Common.{
  ℕ, ◌≡◌, Bool, true, false, not, ◌&&◌, Option, none, some, List, [], ◌∷◌, if◌then◌else◌, and_then,
  Bytes, bytes, bytes_eq,
}
use rust_rpxy.Net.{IpAddr, SocketAddr, to_canonical, canonicalize_ip}
use rust_rpxy.HeaderText.{
  is_empty, trim, split, split_once, split_respecting_quotes, eq_ignore_ascii_case,
  unquote_http_value,
}
use rust_rpxy.HeaderMap.{HeaderMap, HeaderValues, join_header_values}
use rust_rpxy.Forwarding.{IpNet, is_trusted_proxy, forwarded, x_forwarded_proto}

abbrev head_or_empty : List Bytes → Bytes
head_or_empty [] = []
head_or_empty (s ∷ ss) = s

pub non_empty : Bytes → Option Bytes
non_empty s = if is_empty s then none else some s

first_element : Option Bytes → Option Bytes
unfolding non_empty
first_element none = none
first_element (some raw) = non_empty (trim (head_or_empty (split 44 raw)))

pub xforwarded_proto_first : HeaderValues → HeaderMap → Option (Option Bytes)
unfolding first_element
xforwarded_proto_first values headers =
    and_then (join_header_values values headers x_forwarded_proto) (λ raw. some (first_element raw))

first_non_empty : List Bytes → Option Bytes
first_non_empty [] = none
first_non_empty (s ∷ ss) = let rest = first_non_empty ss in if is_empty s then rest else some s

proto_value : Option Bytes → Option (Option Bytes)
unfolding non_empty
proto_value none = none
proto_value (some v) = some (non_empty v)

-- A parameter: the answer of the loop, or `rest` when the loop goes on.
param_proto : Option (Bytes × Bytes) → Option (Option Bytes) → Option (Option Bytes)
unfolding proto_value
param_proto none rest = rest
param_proto (some (key, value)) rest =
    if not (eq_ignore_ascii_case (trim key) (bytes "proto"))
    then rest
    else proto_value (unquote_http_value (trim value))

params_proto : List Bytes → Option (Option Bytes)
unfolding param_proto
params_proto [] = some none
params_proto (param ∷ params) =
    let rest = params_proto params in
    if is_empty param then rest else param_proto (split_once 61 param) rest

entry_proto : Option Bytes → Option (Option Bytes)
unfolding params_proto
entry_proto none = some none
entry_proto (some first_entry) = params_proto (split_respecting_quotes first_entry 59)

raw_proto : Option Bytes → Option (Option Bytes)
unfolding entry_proto first_non_empty
raw_proto none = some none
raw_proto (some raw) = entry_proto (first_non_empty (split_respecting_quotes raw 44))

pub forwarded_first_proto : HeaderValues → HeaderMap → Option (Option Bytes)
unfolding raw_proto
forwarded_first_proto values headers =
    and_then (join_header_values values headers forwarded) raw_proto

pub data Scheme : Type 0 where
  https http : Scheme

scheme_of : Option Bytes → Scheme
scheme_of none = http
scheme_of (some s) = if eq_ignore_ascii_case s (bytes "https") then https else http

from_forwarded : Option (Option Bytes) → Scheme
unfolding scheme_of
from_forwarded none = http
from_forwarded (some s) = scheme_of s

-- A failure of the first argument is not followed by a look at the second.
decide_scheme : Option (Option Bytes) → Option (Option Bytes) → Scheme
unfolding from_forwarded
decide_scheme none fwd = http
decide_scheme (some (some s)) fwd = scheme_of (some s)
decide_scheme (some none) fwd = from_forwarded fwd

unfoldable pub client_visible_scheme :
    HeaderValues → Bool → SocketAddr → HeaderMap → List IpNet → Scheme
unfolding decide_scheme
client_visible_scheme values tls_enabled client_addr headers trusted =
    if tls_enabled
    then https
    else (if not (is_trusted_proxy (canonicalize_ip (to_canonical client_addr).ip) trusted)
        then http
        else decide_scheme (xforwarded_proto_first values headers)
            (forwarded_first_proto values headers))

is_https : Scheme → Bool
is_https https = true
is_https http = false

pub client_visible_secure : HeaderValues → Bool → SocketAddr → HeaderMap → List IpNet → Bool
unfolding is_https
client_visible_secure values tls_enabled client_addr headers trusted =
    is_https (client_visible_scheme values tls_enabled client_addr headers trusted)
