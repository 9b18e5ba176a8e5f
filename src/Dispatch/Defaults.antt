-- ===== src/Dispatch/Defaults.antt =====
-- The default application of a configuration exists.
use rust_rpxy.Common.{
  ◌≡◌, refl, sym, ap, ◌∙◌, Bool, true, false, not, ◌&&◌, Option, none, some, List, [], ◌∷◌,
  if◌then◌else◌, is_some, unwrap_or, Bytes, bytes_eq, bytes_eq_refl,
}
use rust_rpxy.HeaderMap.{HeaderValues}
use rust_rpxy.HopByHop.{extract_upgrade}
use rust_rpxy.Route.{PathName, get, insert, server_name}
use rust_rpxy.RequestOps.{Request, inspect_parse_host, exceeds_content_length_limit}
use rust_rpxy.Dispatch.{
  BackendApp, BackendAppManager, ProxyConfig, lookup, register, find_default, default_of,
  manager_of, Found, found, missing, default_app, fall_back_to, find_app, Dispatched, refused,
  redirected, forwarded, panicked, failed_to_upgrade, sni_host_inconsistency, payload_too_large,
  is_http_11, with_candidates, with_app, with_host, dispatch,
}

module _ {V : Type 0} where
  -- Every application stands under its server name.
  abbrev Keyed : List (Bytes × BackendApp V) → Type 0
  Keyed [] = Unit
  Keyed ((k, app) ∷ apps) = (k ≡ app.server_name) × Keyed apps

  insert-Keyed :
      (app : BackendApp V) (apps : List (Bytes × BackendApp V))
      → Keyed apps
      → Keyed (insert app.server_name app apps)
  unfolding insert
  insert-Keyed app [] h = (refl, tt)
  insert-Keyed app ((k, a) ∷ apps) h = go (bytes_eq k app.server_name) (insert-Keyed app apps h.1)
    where
      go :
          (b : Bool)
          → Keyed (insert app.server_name app apps)
          → Keyed (
              if b then (app.server_name, app) ∷ apps else (k, a) ∷ insert app.server_name app apps)
      go true r = (refl, h.1)
      go false r = (h.0, r)

  register-Keyed :
      (configured : List (BackendApp V)) (apps : List (Bytes × BackendApp V))
      → Keyed apps
      → Keyed (register apps configured)
  unfolding register
  register-Keyed [] apps h = h
  register-Keyed (app ∷ rest) apps h =
      register-Keyed rest (insert app.server_name app apps) (insert-Keyed app apps h)

  found-name :
      (name : Bytes) (apps : List (Bytes × BackendApp V)) (d : Bytes)
      → Keyed apps
      → find_default name apps ≡ some d
      → is_some (lookup d apps) ≡ true
  unfolding find_default
  found-name name [] d h e = absurd (cc)
  found-name name ((k, a) ∷ apps) d h e =
      go (bytes_eq a.app_name name) e (λ q. found-name name apps d h.1 q)
    where
      head : (b : Bool) → bytes_eq k d ≡ b → (b ≡ true) → is_some (lookup d ((k, a) ∷ apps)) ≡ true
      head b q r = rw (q ∙ r) refl

      later :
          (b : Bool)
          → is_some (lookup d apps) ≡ true
          → is_some (if b then some a else lookup d apps) ≡ true
      later true q = refl
      later false q = q

      go :
          (b : Bool)
          → (if b then some a.server_name else find_default name apps) ≡ some d
          → (find_default name apps ≡ some d → is_some (lookup d apps) ≡ true)
          → is_some (lookup d ((k, a) ∷ apps)) ≡ true
      go true q rest =
          head (bytes_eq k d) refl (ap (bytes_eq k) (sym (h.0 ∙ once q)) ∙ bytes_eq_refl k)
        where
          once : some a.server_name ≡ some d → a.server_name ≡ d
          once q = cc
      go false q rest = later (bytes_eq k d) (rest q)

  -- The default name of a manager, if there is one, has an application.
  abbrev DefaultExists : Option Bytes → List (Bytes × BackendApp V) → Type 0
  DefaultExists none apps = Unit
  DefaultExists (some d) apps = is_some (lookup d apps) ≡ true

  default_of-DefaultExists :
      (default : Option Bytes) (apps : List (Bytes × BackendApp V))
      → Keyed apps
      → DefaultExists (default_of default apps) apps
  unfolding default_of
  default_of-DefaultExists none apps h = tt
  default_of-DefaultExists (some name) apps h = go (find_default name apps) refl
    where
      go : (o : Option Bytes) → find_default name apps ≡ o → DefaultExists o apps
      go none q = tt
      go (some d) q = found-name name apps d h q

  is_found : Found V → Bool
  is_found panicked = false
  is_found _ = true

  find_app_total :
      (manager : BackendAppManager V) (tls : Bool) (o : Option (BackendApp V))
      → DefaultExists manager.default_server_name manager.apps
      → is_found (find_app manager tls o) ≡ true
  unfolding find_app fall_back_to default_app is_found
  find_app_total manager tls (some app) h = refl
  find_app_total manager true none h = refl
  find_app_total manager false none h = go manager.default_server_name h
    where
      on : (o : Option (BackendApp V)) → is_some o ≡ true → is_found (default_app o) ≡ true
      on none q = absurd (cc)
      on (some a) q = refl

      go :
          (o : Option Bytes)
          → DefaultExists o manager.apps
          → is_found (fall_back_to manager o) ≡ true
      go none h = refl
      go (some d) h = on (lookup d manager.apps) h

  pub no_panic : Dispatched V → Bool
  no_panic panicked = false
  no_panic _ = true

  candidates_total :
      (values : HeaderValues) (req : Request) (app : BackendApp V) (fallback : Bool)
      (o : Option (PathName × V))
      → no_panic (with_candidates values req app fallback o) ≡ true
  unfolding no_panic with_candidates
  candidates_total values req app fallback none = refl
  candidates_total values req app fallback (some c) =
      go (is_some (extract_upgrade values req.headers) && not (is_http_11 req.version))
    where
      go :
          (b : Bool)
          → no_panic (
              if b
              then refused failed_to_upgrade
              else forwarded app fallback c (extract_upgrade values req.headers))
            ≡ true
      go true = refl
      go false = refl

  app_total :
      (values : HeaderValues) (req : Request) (tls : Bool) (f : Found V)
      → is_found f ≡ true
      → no_panic (with_app values req tls f) ≡ true
  unfolding no_panic with_app is_found
  app_total values req tls missing h = refl
  app_total values req tls panicked h = absurd (cc)
  app_total values req tls (found app fallback) h =
      go (not tls && unwrap_or app.https_redirection false)
        (candidates_total values req app fallback (get req.uri.path app.path_manager))
    where
      go :
          (b : Bool)
          → no_panic (with_candidates values req app fallback (get req.uri.path app.path_manager))
            ≡ true
          → no_panic (
              if b
              then redirected app
              else with_candidates values req app fallback (get req.uri.path app.path_manager))
            ≡ true
      go true h = refl
      go false h = h

  host_total :
      (values : HeaderValues) (config : ProxyConfig) (manager : BackendAppManager V) (req : Request)
      (tls : Bool) (sni : Option Bytes) (o : Option Bytes)
      → DefaultExists manager.default_server_name manager.apps
      → no_panic (with_host values config manager req tls sni o) ≡ true
  unfolding no_panic with_host
  host_total values config manager req tls sni none h = refl
  host_total values config manager req tls sni (some host) h =
      let name = (server_name host).inner in
      go ((tls && config.sni_consistency) && not (bytes_eq name (unwrap_or sni [])))
        (exceeds_content_length_limit values req.headers config.request_max_body_size)
        (with_app values req tls (find_app manager tls (lookup name manager.apps)))
        (app_total values req tls (find_app manager tls (lookup name manager.apps))
          (find_app_total manager tls (lookup name manager.apps) h))
    where
      go :
          (b x : Bool) (d : Dispatched V)
          → no_panic d ≡ true
          → no_panic (
              if b
              then refused sni_host_inconsistency
              else (if x then refused payload_too_large else d))
            ≡ true
      go true x d h = refl
      go false true d h = refl
      go false false d h = h

-- With the applications of any configuration no request meets the `unwrap` of a default application
-- that is not there.
pub dispatch_total :
    {V : Type 0} (values : HeaderValues) (config : ProxyConfig) (configured : List (BackendApp V))
    (default : Option Bytes) (req : Request) (tls : Bool) (sni : Option Bytes)
    → no_panic (dispatch values config (manager_of configured default) req tls sni) ≡ true
unfolding dispatch manager_of
dispatch_total values config configured default req tls sni =
    host_total values config (manager_of configured default) req tls sni (inspect_parse_host req)
      (default_of-DefaultExists default (register [] configured) (register-Keyed configured [] tt))
