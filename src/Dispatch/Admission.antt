-- ===== src/Dispatch/Admission.antt =====
-- Which requests go on to an upstream group, and to which.
use rust_rpxy.Common.{
  ◌≡◌, ◌⊎◌, inl, inr, refl, sym, ap, ◌∙◌, Bool, true, false, not, ◌&&◌, Option, none, some, [],
  if◌then◌else◌, is_some, unwrap_or, Bytes, bytes_eq, bytes_eq_sound, subst,
}
use rust_rpxy.HeaderMap.{HeaderValues}
use rust_rpxy.HopByHop.{extract_upgrade}
use rust_rpxy.Route.{PathName, get, server_name}
use rust_rpxy.RequestOps.{Request, inspect_parse_host, exceeds_content_length_limit}
use rust_rpxy.Dispatch.{
  BackendApp, BackendAppManager, ProxyConfig, lookup, Found, found, missing, default_app,
  fall_back_to, find_app, refused, failed_to_upgrade, sni_host_inconsistency, payload_too_large,
  redirected, forwarded, panicked, is_http_11, with_candidates, with_app, with_host, dispatch,
}

module _ {V : Type 0} where
  -- The application is the one of the name, or on a plaintext listener the default one for a name that
  -- has none.
  abbrev pub Serves : BackendAppManager V → Bool → Bytes → BackendApp V → Bool → Type 0
  Serves manager tls name app fallback =
      (lookup name manager.apps ≡ some app) × (fallback ≡ false)
      ⊎ (lookup name manager.apps ≡ none)
        × (tls ≡ false)
        × (fallback ≡ true)
        × ((d : Bytes) × (manager.default_server_name ≡ some d)
            × (lookup d manager.apps ≡ some app))

  -- Every check that a forwarded request passed.
  pub record Admitted (values : HeaderValues) (config : ProxyConfig) (manager : BackendAppManager V)
      (req : Request) (tls : Bool) (sni : Option Bytes) (app : BackendApp V) (fallback : Bool)
      (candidates : PathName × V) (upgrade : Option Bytes) : Type 0 where
    host : Bytes
    host_ok : inspect_parse_host req ≡ some host
    sni_ok : (tls && config.sni_consistency ≡ false) ⊎ ((server_name host).inner ≡ unwrap_or sni [])
    size_ok : exceeds_content_length_limit values req.headers config.request_max_body_size ≡ false
    served : Serves manager tls (server_name host).inner app fallback
    secure : not tls && unwrap_or app.https_redirection false ≡ false
    routed : get req.uri.path app.path_manager ≡ some candidates
    upgrade_found : upgrade ≡ extract_upgrade values req.headers
    upgrade_ok : is_some upgrade && not (is_http_11 req.version) ≡ false

  found_once : {a b : BackendApp V} {p q : Bool} → found a p ≡ found b q → (a ≡ b) × (p ≡ q)
  found_once h = (cc, cc)

  default-Serves :
      (manager : BackendAppManager V) (name d : Bytes) (o : Option (BackendApp V))
      (app : BackendApp V) (fallback : Bool)
      → lookup name manager.apps ≡ none
      → manager.default_server_name ≡ some d
      → lookup d manager.apps ≡ o
      → default_app o ≡ found app fallback
      → Serves manager false name app fallback
  unfolding default_app
  default-Serves manager name d none app fallback n e f h = absurd (cc)
  default-Serves manager name d (some a) app fallback n e f h =
      inr (n, refl, sym (found_once h).1, (d, e, f ∙ ap some (found_once h).0))

  fall_back-Serves :
      (manager : BackendAppManager V) (name : Bytes) (o : Option Bytes) (app : BackendApp V)
      (fallback : Bool)
      → lookup name manager.apps ≡ none
      → manager.default_server_name ≡ o
      → fall_back_to manager o ≡ found app fallback
      → Serves manager false name app fallback
  unfolding fall_back_to
  fall_back-Serves manager name none app fallback n e h = absurd (cc)
  fall_back-Serves manager name (some d) app fallback n e h =
      default-Serves manager name d (lookup d manager.apps) app fallback n e refl h

  find_app-Serves :
      (manager : BackendAppManager V) (tls : Bool) (name : Bytes) (o : Option (BackendApp V))
      (app : BackendApp V) (fallback : Bool)
      → lookup name manager.apps ≡ o
      → find_app manager tls o ≡ found app fallback
      → Serves manager tls name app fallback
  unfolding find_app
  find_app-Serves manager tls name (some a) app fallback e h =
      inl (e ∙ ap some (found_once h).0, sym (found_once h).1)
  find_app-Serves manager true name none app fallback e h = absurd (cc)
  find_app-Serves manager false name none app fallback e h =
      fall_back-Serves manager name manager.default_server_name app fallback e refl h

  -- The facts after the application is known.
  record Routed (values : HeaderValues) (req : Request) (tls : Bool) (app : BackendApp V)
      (candidates : PathName × V) (upgrade : Option Bytes) : Type 0 where
    not_redirected : not tls && unwrap_or app.https_redirection false ≡ false
    chosen : get req.uri.path app.path_manager ≡ some candidates
    upgrade_is : upgrade ≡ extract_upgrade values req.headers
    upgrade_fits : is_some upgrade && not (is_http_11 req.version) ≡ false

  forwarded_once :
      {a b : BackendApp V} {p q : Bool} {c d : PathName × V} {u v : Option Bytes}
      → forwarded a p c u ≡ forwarded b q d v
      → (a ≡ b) × (p ≡ q) × (c ≡ d) × (u ≡ v)
  forwarded_once h = (cc, cc, cc, cc)

  candidates-Routed :
      (values : HeaderValues) (req : Request) (tls : Bool) (a app : BackendApp V)
      (p fallback : Bool) (o : Option (PathName × V)) (candidates : PathName × V)
      (upgrade : Option Bytes)
      → get req.uri.path a.path_manager ≡ o
      → not tls && unwrap_or a.https_redirection false ≡ false
      → with_candidates values req a p o ≡ forwarded app fallback candidates upgrade
      → (a ≡ app) × (p ≡ fallback) × Routed values req tls a candidates upgrade
  unfolding with_candidates
  candidates-Routed values req tls a app p fallback none c u e s h = absurd (cc)
  candidates-Routed values req tls a app p fallback (some d) c u e s h =
      go (is_some (extract_upgrade values req.headers) && not (is_http_11 req.version)) refl h
    where
      go :
          (b : Bool)
          → is_some (extract_upgrade values req.headers) && not (is_http_11 req.version) ≡ b
          → (if b
              then refused failed_to_upgrade
              else forwarded a p d (extract_upgrade values req.headers))
            ≡ forwarded app fallback c u
          → (a ≡ app) × (p ≡ fallback) × Routed values req tls a c u
      go true q h = absurd (cc)
      go false q h =
          let once = forwarded_once h in
          (
            once.0,
            once.1,
            record {
              not_redirected = s;
              chosen = e ∙ ap some once.2;
              upgrade_is = sym once.3;
              upgrade_fits = ap (λ x. is_some x && not (is_http_11 req.version)) (sym once.3) ∙ q;
            },
          )

  app-Routed :
      (values : HeaderValues) (req : Request) (tls : Bool) (f : Found V) (app : BackendApp V)
      (fallback : Bool) (candidates : PathName × V) (upgrade : Option Bytes)
      → with_app values req tls f ≡ forwarded app fallback candidates upgrade
      → (f ≡ found app fallback) × Routed values req tls app candidates upgrade
  unfolding with_app
  app-Routed values req tls missing app fallback c u h = absurd (cc)
  app-Routed values req tls panicked app fallback c u h = absurd (cc)
  app-Routed values req tls (found a p) app fallback c u h =
      go (not tls && unwrap_or a.https_redirection false) refl h
    where
      go :
          (b : Bool)
          → not tls && unwrap_or a.https_redirection false ≡ b
          → (if b
              then redirected a
              else with_candidates values req a p (get req.uri.path a.path_manager))
            ≡ forwarded app fallback c u
          → (found a p ≡ found app fallback) × Routed values req tls app c u
      go true q h = absurd (cc)
      go false q h =
          let (x, y, r) =
            candidates-Routed values req tls a app p fallback (get req.uri.path a.path_manager) c u
              refl q h in
          (cc, subst (λ z. Routed values req tls z c u) x r)

  -- The checks on the host, before an application is looked for.
  host-Admitted :
      (values : HeaderValues) (config : ProxyConfig) (manager : BackendAppManager V) (req : Request)
      (tls : Bool) (sni : Option Bytes) (o : Option Bytes) (app : BackendApp V) (fallback : Bool)
      (candidates : PathName × V) (upgrade : Option Bytes)
      → inspect_parse_host req ≡ o
      → with_host values config manager req tls sni o ≡ forwarded app fallback candidates upgrade
      → Admitted values config manager req tls sni app fallback candidates upgrade
  unfolding with_host
  host-Admitted values config manager req tls sni none app fallback c u e h = absurd (cc)
  host-Admitted values config manager req tls sni (some host) app fallback c u e h =
      go ((tls && config.sni_consistency) && not (bytes_eq name (unwrap_or sni []))) refl
        (exceeds_content_length_limit values req.headers config.request_max_body_size) refl h
    where
      name : Bytes
      name = (server_name host).inner

      sni_fits :
          (b m : Bool)
          → bytes_eq name (unwrap_or sni []) ≡ m
          → b && not m ≡ false
          → (b ≡ false) ⊎ (name ≡ unwrap_or sni [])
      sni_fits false m e q = inl refl
      sni_fits true true e q = inr (bytes_eq_sound name (unwrap_or sni []) e)
      sni_fits true false e q = absurd (cc)

      go :
          (b : Bool)
          → (tls && config.sni_consistency) && not (bytes_eq name (unwrap_or sni [])) ≡ b
          → (x : Bool)
          → exceeds_content_length_limit values req.headers config.request_max_body_size ≡ x
          → (if b
              then refused sni_host_inconsistency
              else (if x
                  then refused payload_too_large
                  else with_app values req tls (find_app manager tls (lookup name manager.apps))))
            ≡ forwarded app fallback c u
          → Admitted values config manager req tls sni app fallback c u
      go true q x r h = absurd (cc)
      go false q true r h = absurd (cc)
      go false q false r h =
          let (f, routed) =
            app-Routed values req tls (find_app manager tls (lookup name manager.apps)) app fallback
              c u h in
          record {
            host = host;
            host_ok = e;
            sni_ok =
                sni_fits (tls && config.sni_consistency) (bytes_eq name (unwrap_or sni [])) refl q;
            size_ok = r;
            served =
                find_app-Serves manager tls name (lookup name manager.apps) app fallback refl f;
            secure = routed.not_redirected;
            routed = routed.chosen;
            upgrade_found = routed.upgrade_is;
            upgrade_ok = routed.upgrade_fits;
          }

-- A request that `handle_request_inner` forwards has one host; under TLS with the consistency check
-- that host is the SNI name; its announced length is within the limit; the application is the host's,
-- or on a plaintext listener the default one for an unknown host; it does not redirect plaintext
-- requests; the candidates are those of the path; and an upgrade is asked for on HTTP/1.1 only.
pub dispatch-Admitted :
    {V : Type 0} (values : HeaderValues) (config : ProxyConfig) (manager : BackendAppManager V)
    (req : Request) (tls : Bool) (sni : Option Bytes) (app : BackendApp V) (fallback : Bool)
    (candidates : PathName × V) (upgrade : Option Bytes)
    → dispatch values config manager req tls sni ≡ forwarded app fallback candidates upgrade
    → Admitted values config manager req tls sni app fallback candidates upgrade
unfolding dispatch
dispatch-Admitted values config manager req tls sni app fallback c u h =
    host-Admitted values config manager req tls sni (inspect_parse_host req) app fallback c u refl h

tls-Serves :
    {V : Type 0} (manager : BackendAppManager V) (sni : Option Bytes) (name : Bytes)
    (app : BackendApp V) (fallback : Bool) (check : Bool)
    → check ≡ true
    → (true && check ≡ false) ⊎ (name ≡ unwrap_or sni [])
    → Serves manager true name app fallback
    → (lookup (unwrap_or sni []) manager.apps ≡ some app) × (fallback ≡ false)
tls-Serves manager sni name app fallback false s o v = absurd (cc)
tls-Serves manager sni name app fallback true s (inl e) v = absurd (cc)
tls-Serves manager sni name app fallback true s (inr e) (inr (n, t, f, d)) = absurd (cc)
tls-Serves manager sni name app fallback true s (inr e) (inl (l, f)) =
    (ap (λ x. lookup x manager.apps) (sym e) ∙ l, f)

-- With the consistency check a TLS connection reaches no application but that of its SNI name.
pub dispatch_tls :
    {V : Type 0} (values : HeaderValues) (config : ProxyConfig) (manager : BackendAppManager V)
    (req : Request) (sni : Option Bytes) (app : BackendApp V) (fallback : Bool)
    (candidates : PathName × V) (upgrade : Option Bytes)
    → config.sni_consistency ≡ true
    → dispatch values config manager req true sni ≡ forwarded app fallback candidates upgrade
    → (lookup (unwrap_or sni []) manager.apps ≡ some app) × (fallback ≡ false)
dispatch_tls values config manager req sni app fallback c u s h =
    let a = dispatch-Admitted values config manager req true sni app fallback c u h in
    tls-Serves manager sni (server_name a.host).inner app fallback config.sni_consistency s a.sni_ok
      a.served
