-- ===== src/StickyHeaders/Taking.antt =====
-- Taking the sticky cookie out writes the `Cookie` header only.
use rust_rpxy.Common.{
  ℕ, ◌≡◌, refl, ◌∙◌, subst, Bool, true, false, not, Option, none, some, List, [], ◌∷◌,
  if◌then◌else◌, bind_some, some_inj, ◌>>=◌, Bytes, starts_with,
}
use rust_rpxy.HeaderText.{is_empty}
use rust_rpxy.HeaderMap.{HeaderMap, HeaderValues, contains_key, insert, remove, cookie}
use rust_rpxy.LoadBalance.Sticky.{StickyCookie, StickyCookieConfig}
use rust_rpxy.StickySeal.{SealCrates}
use rust_rpxy.StickyHeaders.{
  pass_on, join_cookies, cookies_of, name_prefix, filter, taken, takeout_sticky_cookie_lb_context,
}
use rust_rpxy.Generation.Keeping.{Keeps, set_lines-Keeps}

pass_on-Keeps :
    (values : HeaderValues) (headers : HeaderMap) (passed : Bytes) (after : HeaderMap)
    → pass_on values headers passed ≡ some after
    → Keeps (cookie ∷ []) headers after
unfolding pass_on
pass_on-Keeps values headers passed after e = go (is_empty passed) e
  where
    go :
        (b : Bool)
        → (if b
            then some (remove headers cookie)
            else values.from_str passed >>= λ v. some (insert (remove headers cookie) cookie v))
          ≡ some after
        → Keeps (cookie ∷ []) headers after
    go true e = subst (Keeps (cookie ∷ []) headers) (some_inj e) (set_lines-Keeps headers cookie [])
    go false e =
        let (v, _, q) = bind_some (values.from_str passed) _ after e in
        subst (Keeps (cookie ∷ []) headers) (some_inj q) (λ name h.
          set_lines-Keeps (remove headers cookie) cookie (v ∷ []) name h
          ∙ set_lines-Keeps headers cookie [] name h)

module _ (values : HeaderValues) (crates : SealCrates) (now : ℕ) (config : StickyCookieConfig) where
  taken-Keeps :
      (headers : HeaderMap) (sticky without : List Bytes) (after : HeaderMap × Option StickyCookie)
      → taken values crates now config headers sticky without ≡ some after
      → Keeps (cookie ∷ []) headers after.0
  unfolding taken
  taken-Keeps headers [] without after e =
      subst (λ a. Keeps (cookie ∷ []) headers a.0) (some_inj e) (λ name h. refl)
  taken-Keeps headers (first ∷ more) without after e =
      let (h, p, q) = bind_some (pass_on values headers (join_cookies without)) _ after e in
      subst (λ a. Keeps (cookie ∷ []) headers a.0) (some_inj q)
        (pass_on-Keeps values headers (join_cookies without) h p)

  pub takeout-Keeps :
      (headers : HeaderMap) (after : HeaderMap × Option StickyCookie)
      → takeout_sticky_cookie_lb_context values crates now config headers ≡ some after
      → Keeps (cookie ∷ []) headers after.0
  unfolding takeout_sticky_cookie_lb_context
  takeout-Keeps headers after e = go (contains_key headers cookie) e
    where
      cookies : List Bytes
      cookies = cookies_of values (headers cookie)

      is_sticky : Bytes → Bool
      is_sticky c = starts_with c (name_prefix config)

      go :
          (b : Bool)
          → (if b
              then taken values crates now config headers
                  (filter is_sticky cookies)
                  (filter (λ c. not (is_sticky c)) cookies)
              else some (headers, none))
            ≡ some after
          → Keeps (cookie ∷ []) headers after.0
      go true e = taken-Keeps headers _ _ after e
      go false e = subst (λ a. Keeps (cookie ∷ []) headers a.0) (some_inj e) (λ name h. refl)
