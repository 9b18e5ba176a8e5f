-- ===== src/StickyHeaders/Building.antt =====
-- `StickyCookieConfig::try_new` of rpxy-lib/src/backend/load_balance/sticky_cookie.rs. A negative
-- duration is refused like zero.
use rust_rpxy.Common.{
  ℕ, ◌≡◌, sym, ap, ◌∙◌, subst, true, Option, some, [], ltb, ensure, ensure-some, bind_some,
  some_inj, unwrap_or, ◌>>=◌, ◌>>◌, Bytes, bytes, to_ascii_lowercase,
}
use rust_rpxy.LoadBalance.Sticky.{StickyCookieConfig}
use rust_rpxy.StickySeal.{build_sticky_cookie_aad}
use rust_rpxy.StickyHeaders.{aad_of}

abbrev config_of : Bytes → Bytes → Option Bytes → ℕ → StickyCookieConfig
config_of name server_name path_opt duration = record {
  name = name;
  domain = to_ascii_lowercase server_name;
  path = unwrap_or path_opt (bytes "/");
  duration = duration;
}

try_new : Bytes → Bytes → Option Bytes → ℕ → Option StickyCookieConfig
try_new name server_name path_opt duration = do
  ensure (ltb 0 duration)
  let config = config_of name server_name path_opt duration
  aad ← build_sticky_cookie_aad config.name config.domain config.path
  some config

-- The sealed data of a config that is built is what `aad_of` gives, with a positive duration.
try_new-aad :
    (name server_name : Bytes) (path_opt : Option Bytes) (duration : ℕ)
    (config : StickyCookieConfig)
    → try_new name server_name path_opt duration ≡ some config
    → (build_sticky_cookie_aad config.name config.domain config.path ≡ some (aad_of config))
      × (ltb 0 config.duration ≡ true)
unfolding try_new aad_of
try_new-aad name server_name path_opt duration config e =
    let (c, e1) = ensure-some (ltb 0 duration) _ config e in
    let b = config_of name server_name path_opt duration in
    let (aad, p, e2) = bind_some (build_sticky_cookie_aad b.name b.domain b.path) _ config e1 in
    subst
      (λ (k : StickyCookieConfig).
        (build_sticky_cookie_aad k.name k.domain k.path ≡ some (aad_of k))
        × (ltb 0 k.duration ≡ true))
      (some_inj e2) (p ∙ ap (λ o. some (unwrap_or o [])) (sym p), c)
