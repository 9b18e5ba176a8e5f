-- ===== src/Config/Applications.antt =====
-- What holds of an application that `build_app_config` builds.
use rust_rpxy.Common.{
  ◌≤◌, ◌<◌, ◌≡◌, ◌≢◌, ◌⊎◌, inl, inr, refl, sym, subst, true, false, Option, none, some, List, [],
  ◌∷◌, arith, all, length, Bytes, bytes, All, traverse-All, length-traverse, bind_some, ensure-some,
  some_inj, and-elim, is_some,
}
use rust_rpxy.Config.ServerNames.{validate_server_name}
use rust_rpxy.Config.Hostnames.{HostName, validate_server_name_iff}
use rust_rpxy.Config.HealthChecks.{
  HealthCheckConfig, HealthCheckDetailOption, HealthCheckOption, enabled, config, build_detail,
  build_health_check_config, validate_lb_health_check,
}
use rust_rpxy.Config.Apps.{
  Application, AppConfig, ReverseProxyConfig, ReverseProxyOption, build_app_config,
  build_reverse_proxy, reverse_proxies, build_health, build_tls, check_cert_paths, TlsOption,
  TlsConfig, any_upstream, lb_checked,
}

pub record SoundHealthCheck (h : HealthCheckConfig) : Type 0 where
  pub timely : h.timeout < h.interval
  pub unhealthy : 1 ≤ h.unhealthy_threshold
  pub healthy : 1 ≤ h.healthy_threshold

abbrev pub SoundCheck : Option HealthCheckConfig → Type 0
SoundCheck none = Unit
SoundCheck (some h) = SoundHealthCheck h

build_detail-Sound :
    (d : HealthCheckDetailOption) (h : HealthCheckConfig)
    → build_detail d ≡ some h
    → SoundHealthCheck h
unfolding build_detail
build_detail-Sound d h e = record {
  timely = ground arith;
  unhealthy = ground arith;
  healthy = ground arith;
}

health-Sound :
    (o : HealthCheckOption) (h : Option HealthCheckConfig)
    → build_health_check_config o ≡ some h
    → SoundCheck h
unfolding build_health_check_config
health-Sound (enabled false) h e = subst SoundCheck (some_inj e) tt
health-Sound (enabled true) h e =
    subst SoundCheck (some_inj e)
      (record { timely = omega arith; unhealthy = omega arith; healthy = omega arith })
health-Sound (config d) h e =
    let (c, p, q) = bind_some (build_detail d) _ h e in
    subst SoundCheck (some_inj q) (build_detail-Sound d c p)

build_health-Sound :
    (o : Option HealthCheckOption) (h : Option HealthCheckConfig)
    → build_health o ≡ some h
    → SoundCheck h
unfolding build_health
build_health-Sound none h e = subst SoundCheck (some_inj e) tt
build_health-Sound (some o) h e = health-Sound o h e

any_upstream_le : (us : _) → any_upstream us ≡ true → 1 ≤ length us
any_upstream_le [] h = absurd (cc)
any_upstream_le (u ∷ us) h = omega arith

unchecked : validate_lb_health_check (some (bytes "primary_backup")) none ≡ true → ⊥
unfolding validate_lb_health_check
unchecked h = cc

lb-backup :
    (b : Option Bytes) (h : Option HealthCheckConfig)
    → validate_lb_health_check b h ≡ true
    → (b ≢ some (bytes "primary_backup")) ⊎ (is_some h ≡ true)
unfolding validate_lb_health_check
lb-backup b (some h) e = inr refl
lb-backup b none e = inl (λ p. unchecked (subst (λ x. validate_lb_health_check x none ≡ true) p e))

build_tls-tls :
    (o : Option TlsOption) (t : Option TlsConfig)
    → build_tls o ≡ some t
    → is_some o ≡ true
    → is_some t ≡ true
unfolding build_tls
build_tls-tls none t e h = absurd (cc)
build_tls-tls (some tls) t e h =
    let (_, e1) = ensure-some (check_cert_paths tls) _ t e in
    subst (λ z. is_some z ≡ true) (some_inj e1) refl

module _ {U : Type 0} where
  pub record SoundProxy (c : ReverseProxyConfig U) : Type 0 where
    pub upstreams : 1 ≤ length c.upstream
    pub health_check : SoundCheck c.health_check
    pub backup : (c.load_balance ≢ some (bytes "primary_backup")) ⊎ (is_some c.health_check ≡ true)

  pub record SoundApp (a : AppConfig U) : Type 0 where
    pub host_name : HostName a.server_name
    pub proxies : All SoundProxy a.reverse_proxy

  -- What one entry of the configuration gives, before the check on its load balancing.
  record Built (c : ReverseProxyConfig U) : Type 0 where
    upstreams : 1 ≤ length c.upstream
    health_check : SoundCheck c.health_check

  build_reverse_proxy-Built :
      (parse_uri : Bytes → Option U) (rpo : ReverseProxyOption) (c : ReverseProxyConfig U)
      → build_reverse_proxy parse_uri rpo ≡ some c
      → Built c
  unfolding build_reverse_proxy
  build_reverse_proxy-Built parse_uri rpo c e =
      let (a, e1) = ensure-some _ _ c e in
      let (ups, t, e2) = bind_some _ _ c e1 in
      let (h, b, e3) = bind_some _ _ c e2 in
      subst Built (some_inj e3) (record {
        upstreams =
            subst (λ n. 1 ≤ n) (sym (length-traverse _ rpo.upstream ups t))
              (any_upstream_le rpo.upstream a);
        health_check = build_health-Sound rpo.health_check h b;
      })

  proxies-Sound :
      (cs : List (ReverseProxyConfig U))
      → All Built cs
      → all lb_checked cs ≡ true
      → All SoundProxy cs
  proxies-Sound [] b h = tt
  proxies-Sound (c ∷ cs) (b, bs) h = (
    record {
      upstreams = b.upstreams;
      health_check = b.health_check;
      backup = lb-backup c.load_balance c.health_check (and-elim h).0;
    },
    proxies-Sound cs bs (and-elim h).1,
  )

  pub build_app_config-Sound :
      (parse_uri : Bytes → Option U) (app : Application) (name : Bytes) (a : AppConfig U)
      → build_app_config parse_uri app name ≡ some a
      → SoundApp a
  unfolding build_app_config reverse_proxies
  build_app_config-Sound parse_uri app name a e =
      let (host, p, e1) = bind_some app.server_name _ a e in
      let (v, e2) = ensure-some (validate_server_name host) _ a e1 in
      let (cs, q, e3) = bind_some (reverse_proxies parse_uri app) _ a e2 in
      let (l, e4) = ensure-some (all lb_checked cs) _ a e3 in
      let (tls, t, e5) = bind_some (build_tls app.tls) _ a e4 in
      let (_, _, q1) = bind_some app.server_name _ cs q in
      let (os, _, q2) = bind_some app.reverse_proxy _ cs q1 in
      subst SoundApp (some_inj e5) (record {
        host_name = (validate_server_name_iff host).0 v;
        proxies =
            proxies-Sound cs
              (traverse-All (build_reverse_proxy parse_uri) Built
                (build_reverse_proxy-Built parse_uri) os cs q2)
              l;
      })

  pub build_app_config-tls :
      (parse_uri : Bytes → Option U) (app : Application) (name : Bytes) (a : AppConfig U)
      → build_app_config parse_uri app name ≡ some a
      → is_some app.tls ≡ true
      → is_some a.tls ≡ true
  unfolding build_app_config
  build_app_config-tls parse_uri app name a e h =
      let (host, _, e1) = bind_some app.server_name _ a e in
      let (_, e2) = ensure-some (validate_server_name host) _ a e1 in
      let (cs, _, e3) = bind_some (reverse_proxies parse_uri app) _ a e2 in
      let (_, e4) = ensure-some (all lb_checked cs) _ a e3 in
      let (tls, t, e5) = bind_some (build_tls app.tls) _ a e4 in
      subst (λ z. is_some z.tls ≡ true) (some_inj e5) (build_tls-tls app.tls tls t h)
