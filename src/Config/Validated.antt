-- ===== src/Config/Validated.antt =====
-- What holds of the settings that `validate_and_build_settings` builds.
use rust_rpxy.Common.{
  ◌≤◌, ◌≡◌, ◌⊎◌, inl, inr, refl, sym, subst, Bool, true, false, not, ◌&&◌, ◌||◌, Option, some, [],
  ◌∷◌, arith, all, length, Bytes, All, traverse, traverse-All, traverse-all, length-traverse,
  bind_some, ensure-some, some_inj, is_some,
}
use rust_rpxy.TrustedProxies.{IpNets}
use rust_rpxy.Config.Sockets.{AddressParsers}
use rust_rpxy.Config.Apps.{Application, AppConfig}
use rust_rpxy.Config.Proxy.{ConfigToml, ProxyConfig, build_proxy_config}
use rust_rpxy.Config.Applications.{SoundApp, build_app_config-Sound, build_app_config-tls}
use rust_rpxy.Config.Listeners.{SoundListeners, build_proxy_config-Sound}
use rust_rpxy.Config.Settings.{
  Apps, has_apps, all_apps_have_tls, all_apps_no_https_redirection, AppConfigList, build_app,
  validate_and_build_settings,
}

has_apps_le : (apps : Apps) → has_apps apps ≡ true → 1 ≤ length apps
has_apps_le [] h = absurd (cc)
has_apps_le (a ∷ apps) h = omega arith

plain_or_tls : (a b : Bool) → a || b ≡ true → (a ≡ true) ⊎ (b ≡ true)
plain_or_tls true b h = inl refl
plain_or_tls false b h = inr h

module _ {U : Type 0} where
  build_app-SoundApp :
      (parse_uri : Bytes → Option U) (x : Bytes × Application) (a : AppConfig U)
      → build_app parse_uri x ≡ some a
      → SoundApp a
  unfolding build_app
  build_app-SoundApp parse_uri (name, app) a e = build_app_config-Sound parse_uri app _ a e

  build_app-tls :
      (parse_uri : Bytes → Option U) (x : Bytes × Application) (a : AppConfig U)
      → build_app parse_uri x ≡ some a
      → is_some x.1.tls ≡ true
      → is_some a.tls ≡ true
  unfolding build_app
  build_app-tls parse_uri (name, app) a e h = build_app_config-tls parse_uri app _ a e h

module _ {N U : Type 0} where
  pub record SoundSettings (s : ProxyConfig N × AppConfigList U) : Type 0 where
    pub listeners : SoundListeners s.0
    pub some_app : 1 ≤ length s.1.inner
    pub apps : All SoundApp s.1.inner
    pub all_tls : (is_some s.0.http_port ≡ true) ⊎ (all (λ a. is_some a.tls) s.1.inner ≡ true)

-- Settings that are built listen on a port; the two ports differ; there is a public HTTPS port only with
-- a TLS port; the PROXY protocol is received from some trusted network. There is an application, each has
-- TLS when no plaintext port is open, each is for a host name of RFC 1123, and each of its entries has an
-- upstream, a health check that times out before the next and needs at least one result either way,
-- and a health check when it is a primary with backups.
pub validate_and_build_settings-Sound :
    {N U : Type 0} (nets : IpNets N) (parsers : AddressParsers) (parse_uri : Bytes → Option U)
    (toml : ConfigToml) (apps : Option Apps) (default_app : Option Bytes)
    (s : ProxyConfig N × AppConfigList U)
    → validate_and_build_settings nets parsers parse_uri toml apps default_app ≡ some s
    → SoundSettings s
unfolding validate_and_build_settings
validate_and_build_settings-Sound nets parsers parse_uri toml apps_option default_app s e =
    let (c, p, e1) = bind_some (build_proxy_config nets parsers toml) _ s e in
    let (apps, _, e2) = bind_some apps_option _ s e1 in
    let (some_app, e3) = ensure-some (has_apps apps) _ s e2 in
    let (all_tls, e4) = ensure-some (is_some c.http_port || all_apps_have_tls apps) _ s e3 in
    let (_, e5) = ensure-some (not (is_some c.public_https_port) || is_some c.https_port) _ s e4 in
    let (_, e6) =
      ensure-some
        ((is_some c.https_port && is_some c.http_port) || all_apps_no_https_redirection apps) _ s
        e5 in
    let (inner, t, e7) = bind_some (traverse (build_app parse_uri) apps) _ s e6 in
    subst SoundSettings (some_inj e7) (record {
      listeners = build_proxy_config-Sound nets parsers toml c p;
      some_app =
          subst (λ n. 1 ≤ n) (sym (length-traverse _ apps inner t)) (has_apps_le apps some_app);
      apps =
          traverse-All (build_app parse_uri) SoundApp (build_app-SoundApp parse_uri) apps inner t;
      all_tls = elim (plain_or_tls (is_some c.http_port) (all_apps_have_tls apps) all_tls) [
        | inl plain ↦ inl plain
        | inr tls ↦ inr (
            traverse-all (build_app parse_uri) (λ x. is_some x.1.tls) (λ a. is_some a.tls)
              (build_app-tls parse_uri) apps inner t tls)
      ];
    })
