-- ===== src/LoadBalance/Sticky.antt =====
-- rpxy-lib/src/backend/load_balance: load_balance_sticky.rs and the cookie types of sticky_cookie.rs.
-- `id_of` stands for `calculate_id_with_index`, a SHA-256 in base64 of the uri and the index.
pub mod Cookies
use rust_rpxy.Common.{
  ℕ, zero, suc, ◌+◌, ◌≡◌, Bool, true, false, Option, none, some, List, [], ◌∷◌, if◌then◌else◌,
  Bytes, bytes_eq, to_ascii_lowercase, get_elem?, ◌&&◌,
}
use rust_rpxy.Upstream.{Upstream, is_healthy}
use rust_rpxy.LoadBalance.{
  LoadBalanceRoundRobin, fetch_and_advance, round_robin_ptr, pick_nth_available_index,
}

pub record StickyCookieValue : Type 0 where
  pub name : Bytes
  pub value : Bytes

pub record StickyCookieInfo : Type 0 where
  pub expires : ℕ
  pub domain : Bytes
  pub path : Bytes

pub record StickyCookie : Type 0 where
  pub value : StickyCookieValue
  pub info : Option StickyCookieInfo

-- The parts of the config that a cookie is built from; `duration` is positive by `try_new`.
pub record StickyCookieConfig : Type 0 where
  pub name : Bytes
  pub domain : Bytes
  pub path : Bytes
  pub duration : ℕ

-- `build_sticky_cookie` at the Unix time `now`.
unfoldable pub build_sticky_cookie : StickyCookieConfig → ℕ → Bytes → StickyCookie
build_sticky_cookie c now v = record {
  value = record { name = to_ascii_lowercase c.name; value = v };
  info =
      some (record {
        expires = now + c.duration;
        domain = to_ascii_lowercase c.domain;
        path = c.path;
      });
}

-- A `HashMap<String, usize>`.
abbrev pub IdMap : Type 0
IdMap = Bytes → Option ℕ

pub record UpstreamMap : Type 0 where
  pub upstream_index_map : List Bytes
  pub upstream_id_map : IdMap

abbrev id_insert : IdMap → Bytes → ℕ → IdMap
id_insert m id i j = if bytes_eq id j then some i else m j

ids_from : (Upstream → ℕ → Bytes) → ℕ → List Upstream → List Bytes
ids_from id_of i [] = []
ids_from id_of i (u ∷ us) = id_of u i ∷ ids_from id_of (i + 1) us

insert_all : ℕ → List Bytes → IdMap → IdMap
insert_all i [] m = m
insert_all i (id ∷ ids) m = insert_all (i + 1) ids (id_insert m id i)

-- The setter `upstream_maps`: the ids in order, and their indices.
unfoldable pub upstream_maps : (Upstream → ℕ → Bytes) → List Upstream → UpstreamMap
unfolding ids_from insert_all
upstream_maps id_of us = record {
  upstream_index_map = ids_from id_of 0 us;
  upstream_id_map = insert_all 0 (ids_from id_of 0 us) (λ _. none);
}

pub record LoadBalanceSticky : Type 0 where
  pub ptr : LoadBalanceRoundRobin
  pub sticky_config : StickyCookieConfig
  pub maps : UpstreamMap

pub record PointerToUpstream : Type 0 where
  pub ptr : ℕ
  pub context : Option StickyCookie

-- `get_server_id_from_index` unwraps: `none` is its panic.
build_ptr_with_new_cookie : LoadBalanceSticky → ℕ → ℕ → Option PointerToUpstream
build_ptr_with_new_cookie lb now_ts ptr = elim (get_elem? lb.maps.upstream_index_map ptr) [
  | none ↦ none
  | some id ↦
      some (record { ptr = ptr; context = some (build_sticky_cookie lb.sticky_config now_ts id) })
]

-- Round robin with a new cookie.
fall_back :
    LoadBalanceSticky
    → ℕ
    → List Upstream
    → List Upstream
    → LoadBalanceSticky × Option PointerToUpstream
unfolding build_ptr_with_new_cookie
fall_back lb now_ts now later =
    let (rr, ptr) = round_robin_ptr lb.ptr now later in
    (record lb { ptr = rr }, build_ptr_with_new_cookie lb now_ts ptr)

abbrev is_some_healthy : Option Upstream → Bool
is_some_healthy none = false
is_some_healthy (some u) = is_healthy u

-- `first` is the reading of the upstream that the cookie names.
stick :
    LoadBalanceSticky
    → ℕ
    → List Upstream
    → List Upstream
    → List Upstream
    → Option ℕ
    → LoadBalanceSticky × Option PointerToUpstream
unfolding fall_back
stick lb now_ts first now later none = fall_back lb now_ts now later
stick lb now_ts first now later (some index) =
    if is_some_healthy (get_elem? first index)
    then (lb, some (record { ptr = index; context = none }))
    else fall_back lb now_ts now later

-- `get_ptr`: the cookie of the request, if any, chooses the upstream while that one is healthy.
unfoldable pub get_ptr :
    LoadBalanceSticky
    → ℕ
    → Option StickyCookie
    → List Upstream
    → List Upstream
    → List Upstream
    → LoadBalanceSticky × Option PointerToUpstream
unfolding stick fall_back round_robin_ptr pick_nth_available_index build_sticky_cookie
get_ptr lb now_ts none first now later = fall_back lb now_ts now later
get_ptr lb now_ts (some cookie) first now later =
    stick lb now_ts first now later (lb.maps.upstream_id_map cookie.value.value)
