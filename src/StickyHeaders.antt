-- ===== src/StickyHeaders.antt =====
-- rpxy-lib/src/message_handler/header_ops/sticky_cookie.rs: the sticky cookie is taken out of a
-- request and set in a response, with the text of sticky_cookie.rs. An error is `none`.
pub mod Picking
pub mod Passing
pub mod Taking
pub mod Returning
pub mod Setting
mod Building
use rust_rpxy.Common.{
  ℕ, ◌+◌, ◌-◌, ◌≡◌, Bool, true, false, not, Option, none, some, List, [], ◌∷◌, ◌++◌, if◌then◌else◌,
  ltb, length, map, any, unwrap_or, ◌>>=◌, Bytes, bytes, bytes_eq, starts_with,
}
use rust_rpxy.HeaderText.{is_empty, trim, split, split_once}
use rust_rpxy.HeaderMap.{HeaderMap, HeaderValues, contains_key, insert, remove, set_lines, cookie}
use rust_rpxy.LoadBalance.Sticky.{
  StickyCookie, StickyCookieValue, StickyCookieInfo, StickyCookieConfig,
}
use rust_rpxy.ForwardedEntry.{decimal_from}
use rust_rpxy.StickySeal.{SealCrates, build_sticky_cookie_aad, seal_server_id, open_server_id}

-- The name of `StickyCookieConfig` with its equals sign, and the sealed data, which `try_new` has validated.
unfoldable pub name_prefix : StickyCookieConfig → Bytes
name_prefix config = config.name ++ bytes "="

aad_of : StickyCookieConfig → Bytes
aad_of config = unwrap_or (build_sticky_cookie_aad config.name config.domain config.path) []

value_of : Bytes → Option (Bytes × Bytes) → Option StickyCookieValue
value_of expected none = none
value_of expected (some (name, val)) =
    if not (bytes_eq (trim name) expected)
    then none
    else (if is_empty (trim val) then none else some (record { name = expected; value = trim val }))

-- `StickyCookieValue::try_from`.
pub parse_sticky_cookie : Bytes → Bytes → Option StickyCookieValue
unfolding value_of
parse_sticky_cookie value expected_name = value_of expected_name (split_once 61 value)

-- The cookies of all lines.
unfoldable pub cookies_of : HeaderValues → List Bytes → List Bytes
cookies_of values [] = []
cookies_of values (v ∷ vs) =
    map trim (split 59 (unwrap_or (values.to_str v) [])) ++ cookies_of values vs

abbrev pub filter : (Bytes → Bool) → List Bytes → List Bytes
filter f [] = []
filter f (c ∷ cs) = let rest = filter f cs in if f c then c ∷ rest else rest

unfoldable pub join_cookies : List Bytes → Bytes
join_cookies [] = []
join_cookies (c ∷ []) = c
join_cookies (c ∷ d ∷ cs) = c ++ bytes "; " ++ join_cookies (d ∷ cs)

-- What goes on to the upstream.
unfoldable pub pass_on : HeaderValues → HeaderMap → Bytes → Option HeaderMap
pass_on values headers passed =
    if is_empty passed
    then some (remove headers cookie)
    else values.from_str passed >>= λ v. some (insert (remove headers cookie) cookie v)

module _ (values : HeaderValues) (crates : SealCrates) (now : ℕ) (config : StickyCookieConfig) where
  unfoldable pub context_of : Option StickyCookieValue → Option StickyCookie
  unfolding aad_of
  context_of none = none
  context_of (some raw) = open_server_id crates (aad_of config) raw.value now >>= λ server_id.
      some (record { value = record { name = config.name; value = server_id }; info = none })

  -- From the cookies with the sticky name and the others.
  unfoldable pub taken :
      HeaderMap → List Bytes → List Bytes → Option (HeaderMap × Option StickyCookie)
  unfolding pass_on join_cookies context_of parse_sticky_cookie
  taken headers [] without = some (headers, none)
  taken headers (first ∷ more) without = pass_on values headers (join_cookies without) >>= λ h.
      some (
        h,
        (if ltb 0 (length more) then none else context_of (parse_sticky_cookie first config.name)),
      )

  unfoldable pub takeout_sticky_cookie_lb_context :
      HeaderMap → Option (HeaderMap × Option StickyCookie)
  unfolding taken cookies_of name_prefix
  takeout_sticky_cookie_lb_context headers =
      let cookies = cookies_of values (headers cookie) in
      let is_sticky = λ (c : Bytes). starts_with c (name_prefix config) in
      if contains_key headers cookie
      then taken headers (filter is_sticky cookies) (filter (λ c. not (is_sticky c)) cookies)
      else some (headers, none)

abbrev pub set_cookie : Bytes
set_cookie = bytes "set-cookie"

-- `expires - now`, an `i64` that can be negative.
max_age : ℕ → ℕ → Bytes
max_age expires now =
    if ltb expires now
    then 45 ∷ decimal_from 19 (now - expires) []
    else decimal_from 19 (expires - now) []

-- What follows the pair.
attributes : ℕ → Bool → StickyCookieInfo → Bytes → Bytes
unfolding max_age
attributes now secure info exp_str =
    bytes " expires="
    ++ exp_str
    ++ bytes "; Max-Age="
    ++ max_age info.expires now
    ++ bytes "; path="
    ++ info.path
    ++ bytes "; domain="
    ++ info.domain
    ++ bytes "; HttpOnly; SameSite=Lax"
    ++ (if secure then bytes "; Secure" else [])

-- `date` stands for `Utc.timestamp_opt` and the format of its result.
unfoldable pub to_set_cookie_value_with_value :
    (ℕ → Option Bytes) → ℕ → Bool → StickyCookie → Bytes → Option Bytes
unfolding attributes
to_set_cookie_value_with_value date now secure sticky cookie_value = do
  info ← sticky.info
  exp_str ← date info.expires
  some (sticky.value.name ++ (61 ∷ cookie_value) ++ 59 ∷ attributes now secure info exp_str)

abbrev pub replace : (Bytes → Bool) → Bytes → List Bytes → List Bytes
replace f line [] = []
replace f line (v ∷ vs) = (if f v then line else v) ∷ replace f line vs

-- The lines of the entry: those with the sticky name are replaced.
unfoldable pub set_line : (Bytes → Bool) → Bytes → List Bytes → List Bytes
set_line f line lines = if any f lines then replace f line lines else lines ++ line ∷ []

module _ (crates : SealCrates) (date : ℕ → Option Bytes) (now : ℕ)
    (config : StickyCookieConfig) where
  -- The nonce is the random one of `seal_server_id`.
  unfoldable pub sealed_text : Bytes → Bool → StickyCookie → Option Bytes
  unfolding aad_of to_set_cookie_value_with_value
  sealed_text nonce secure context = do
    info ← context.info
    sealed_value ← seal_server_id crates (aad_of config) nonce context.value.value info.expires
    to_set_cookie_value_with_value date now secure context sealed_value

  unfoldable pub set_sticky_cookie_lb_context :
      HeaderValues → HeaderMap → Bytes → Bool → StickyCookie → Option HeaderMap
  unfolding sealed_text set_line name_prefix
  set_sticky_cookie_lb_context values headers nonce secure context = do
    text ← sealed_text nonce secure context
    line ← values.from_str text
    let is_sticky = λ (v : Bytes). starts_with (unwrap_or (values.to_str v) []) (name_prefix config)
    some (set_lines headers set_cookie (set_line is_sticky line (headers set_cookie)))
