-- ===== src/RequestOps.antt =====
-- rpxy-lib/src/message_handler/request_ops.rs, and the helpers on requests of handler_main.rs and
-- handler_manipulate_messages.rs beside it. Of a URI of the http crate the parts that these read
-- are kept, as the crate parsed them. An error is `none`.
pub mod Hosts
pub mod Paths
use rust_rpxy.Common.{
  ℕ, zero, suc, ◌+◌, ◌≡◌, Bool, true, false, not, ◌&&◌, ◌||◌, Option, none, some, List, [], ◌∷◌,
  ◌++◌, if◌then◌else◌, ◌==◌, ltb, leb, length, take, drop, any, all, count_if, and_then, unwrap_or,
  Bytes, bytes, bytes_eq, starts_with, to_ascii_lowercase,
}
use rust_rpxy.HeaderText.{is_empty, is_ascii_digit, eq_ignore_ascii_case}
use rust_rpxy.HeaderMap.{HeaderMap, HeaderValues, get}
use rust_rpxy.ForwardedNode.{digits_value}

pub data Version : Type 0 where
  http_09 http_10 http_11 http_2 http_3 : Version

pub data Scheme : Type 0 where
  http https : Scheme

pub record Uri : Type 0 where
  pub scheme : Option Scheme
  pub host : Option Bytes
  pub port : Option ℕ
  pub path : Bytes
  pub path_and_query : Option Bytes

pub record Request : Type 0 where
  pub headers : HeaderMap
  pub uri : Uri
  pub version : Version

-- The bytes before the first separator, or all of them.
abbrev pub before : ℕ → Bytes → Bytes
before p [] = []
before p (c ∷ s) = let rest = before p s in if c == p then [] else c ∷ rest

abbrev pub colons : Bytes → ℕ
colons s = count_if (λ b. b == 58) s

plain_host : Bytes → Bytes
plain_host v = if leb 2 (colons v) then v else to_ascii_lowercase (before 58 v)

unfoldable pub drop_port : Bytes → Bytes
unfolding plain_host
drop_port [] = plain_host []
drop_port (c ∷ rest) = if c == 91 then before 93 rest else plain_host (c ∷ rest)

abbrev pub dropped : Option Bytes → Option Bytes
dropped none = none
dropped (some v) = some (drop_port v)

agree : Option Bytes → Option Bytes → Option Bytes
agree (some hh) (some hu) = if bytes_eq hh hu then some hh else none
agree (some hh) none = some hh
agree none (some hu) = some hu
agree none none = none

unfoldable pub inspect_parse_host : Request → Option Bytes
unfolding agree
inspect_parse_host req = agree (dropped (get req.headers (bytes "host"))) (dropped req.uri.host)

-- rpxy-lib/src/backend/upstream_opts.rs.
pub data UpstreamOption : Type 0 where
  keep_original_host set_upstream_host upgrade_insecure_requests : UpstreamOption
  force_http11_upstream force_http2_upstream forwarded_header : UpstreamOption

-- A set of options is the list of its members in the order of iteration.
apply_options : Version → List UpstreamOption → Version
apply_options version [] = version
apply_options version (force_http11_upstream ∷ options) = apply_options http_11 options
apply_options version (force_http2_upstream ∷ options) = apply_options http_2 options
apply_options version (_ ∷ options) = apply_options version options

is_grpc : Option Bytes → Bool
is_grpc none = false
is_grpc (some v) = starts_with v (bytes "application/grpc")

upstream_version : Option Scheme → Version → Version
upstream_version (some http) version = http_11
upstream_version scheme http_3 = http_2
upstream_version scheme version = version

unfoldable pub update_request_line : Request → Option Scheme → List UpstreamOption → Version
unfolding apply_options is_grpc upstream_version
update_request_line req upstream_scheme options =
    if is_grpc (get req.headers (bytes "content-type"))
    then http_2
    else apply_options (upstream_version upstream_scheme req.version) options

-- `split` at a comma, a space or a tab, and the comparison of each part.
any_part : Bytes → Bytes → Bool
any_part part [] = eq_ignore_ascii_case part (bytes "trailers")
any_part part (c ∷ te) =
    let cut = c == 44 || c == 32 || c == 9 in
    let rest = any_part (if cut then [] else part ++ c ∷ []) te in
    if cut then eq_ignore_ascii_case part (bytes "trailers") || rest else rest

unfoldable pub te_contains_trailers : Bytes → Bool
unfolding any_part
te_contains_trailers te = any_part [] te

without_sign : Bytes → Bytes
without_sign [] = []
without_sign (c ∷ s) = if c == 43 then s else c ∷ s

-- `str::parse::<u64>`.
parse_u64 : Bytes → Option ℕ
unfolding without_sign
parse_u64 text =
    let s = without_sign text in
    if not (is_empty s) && all is_ascii_digit s && ltb (digits_value 0 s) 18446744073709551616
    then some (digits_value 0 s)
    else none

pub announced_length : HeaderValues → HeaderMap → Option ℕ
unfolding parse_u64
announced_length values headers =
    and_then (get headers (bytes "content-length"))
      (λ value. and_then (values.to_str value) parse_u64)

over : Option ℕ → Option ℕ → Bool
over (some limit) (some n) = ltb limit n
over _ _ = false

-- `check_content_length_limit`; `true` is its error.
unfoldable pub exceeds_content_length_limit : HeaderValues → HeaderMap → Option ℕ → Bool
unfolding over announced_length
exceeds_content_length_limit values headers limit = over limit (announced_length values headers)

replace_matched : Bytes → Bytes → Bytes → Option Bytes
replace_matched org_pq new_path matched =
    if not (is_empty matched) && leb (length matched) (length org_pq)
    then some (new_path ++ drop (length matched) org_pq)
    else none

-- `rebuild_path_and_query`, before the http crate checks the result.
unfoldable pub rebuild_path_and_query : Uri → Option Bytes → Bytes → Option Bytes
unfolding replace_matched
rebuild_path_and_query uri none matched = some (unwrap_or uri.path_and_query (bytes "/"))
rebuild_path_and_query uri (some new_path) matched =
    replace_matched (unwrap_or uri.path_and_query (bytes "/")) new_path matched
