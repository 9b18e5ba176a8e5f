-- ===== src/Responding/Replies.antt =====
-- What each reply to a client says about the response of the upstream.
use rust_rpxy.Common.{
  ◌≡◌, refl, ap, ◌∙◌, subst, Bool, true, false, Option, none, some, List, [], ◌∷◌, ◌++◌, ◌==◌,
  Bool-cases, inl, inr, bind_some, some_inj, Bytes, bytes, if◌then◌else◌, ◌||◌, arith,
  to_ascii_lowercase, bytes_eq_sound, bytes_eq_refl,
}
use rust_rpxy.HeaderText.{eq_ignore_ascii_case}
use rust_rpxy.HeaderMap.{HeaderMap, HeaderValues}
use rust_rpxy.HopByHop.{
  connection, upgrade, hop_headers, extract_upgrade, remove_connection_header, remove_hop_header,
}
use rust_rpxy.HopByHop.Removal.{is_one_of, lines_without, first_listed, removal_lem}
use rust_rpxy.Dispatch.{failed_to_upgrade}
use rust_rpxy.LoadBalance.Sticky.{StickyCookie, StickyCookieConfig}
use rust_rpxy.StickySeal.{SealCrates}
use rust_rpxy.StickyHeaders.{set_cookie, sealed_text, set_sticky_cookie_lb_context}
use rust_rpxy.Generation.{AltSvc, alt_svc, generate_response_forwarded}
use rust_rpxy.Generation.Keeping.{Keeps, set_lines-Keeps}
use rust_rpxy.Generation.Returned.{generate_response_forwarded-Keeps}
use rust_rpxy.Responding.{
  Response, HandlerContext, Sealing, Reply, relayed, upgraded, failed, switching_protocols,
  should_upgrade, add_set_cookie, relay, reply, handle_response,
}

-- The headers that a response gets from the proxy.
abbrev pub written_keys : List Bytes
written_keys = set_cookie ∷ bytes "server" ∷ alt_svc ∷ []

-- That both are there and name the same protocol, whatever the case of their letters.
unfoldable pub SameProtocol : Option Bytes → Option Bytes → Type 0
SameProtocol a b =
    (asked : Bytes) × (given : Bytes) × (a ≡ some asked)
    × (b ≡ some given)
    × (to_ascii_lowercase asked ≡ to_ascii_lowercase given)

-- For a header that the proxy does not write: a relayed response is not one that switches protocols and has lost
-- the hop-by-hop headers and those that `Connection` lists; an upgraded one switches to the protocol
-- that the request asked for, and an upgrade fails only if it does not.
unfoldable pub Agrees : HeaderValues → Option Bytes → Response → Bytes → Reply → Type 0
Agrees values token res name (relayed out) =
    (out.status ≡ res.status)
    × (res.status == switching_protocols ≡ false)
    × (out.headers name
        ≡ lines_without (hop_headers ++ first_listed values res.headers) res.headers name)
Agrees values token res name (upgraded out) =
    (out.status ≡ res.status)
    × (res.status == switching_protocols ≡ true)
    × SameProtocol token (extract_upgrade values res.headers)
    × (out.headers name ≡ res.headers name)
Agrees values token res name (failed failed_to_upgrade) =
    (res.status == switching_protocols ≡ true)
    × (¬ SameProtocol token (extract_upgrade values res.headers))
Agrees values token res name (failed _) = Unit

should_upgrade-SameProtocol : (a b : Option Bytes) → should_upgrade a b ≡ true → SameProtocol a b
unfolding should_upgrade SameProtocol eq_ignore_ascii_case
should_upgrade-SameProtocol (some a) (some b) h = (a, b, refl, refl, bytes_eq_sound _ _ h)
should_upgrade-SameProtocol (some a) none h = absurd (cc)
should_upgrade-SameProtocol none b h = absurd (cc)

SameProtocol-should_upgrade : (a b : Option Bytes) → SameProtocol a b → should_upgrade a b ≡ true
unfolding should_upgrade SameProtocol eq_ignore_ascii_case
SameProtocol-should_upgrade a b (x, y, p, q, e) =
    rw (p, q, e) (bytes_eq_refl (to_ascii_lowercase y))

differs : (a b : Option Bytes) → should_upgrade a b ≡ false → ¬ SameProtocol a b
differs a b h p = let t = SameProtocol-should_upgrade a b p in absurd (cc)

first_listed_same :
    (values : HeaderValues) (a b : HeaderMap)
    → b connection ≡ a connection
    → first_listed values b ≡ first_listed values a
first_listed_same values a b e = rw e refl

extract_upgrade_same :
    (values : HeaderValues) (a b : HeaderMap)
    → b connection ≡ a connection
    → b upgrade ≡ a upgrade
    → extract_upgrade values b ≡ extract_upgrade values a
unfolding extract_upgrade
extract_upgrade_same values a b e f = rw (e, f) refl

split_keys : {a b : Bool} → a || b ≡ false → (a ≡ false) × (b ≡ false)
split_keys h = ground arith

keeps_one : {a : Bool} → a ≡ false → a || false ≡ false
keeps_one h = ground arith

module _ (values : HeaderValues) (sealing : Sealing) (config : AltSvc) where
  set_cookie-Keeps :
      (crates : SealCrates) (c : StickyCookieConfig) (headers : HeaderMap) (secure : Bool)
      (lb : StickyCookie) (after : HeaderMap)
      → set_sticky_cookie_lb_context crates sealing.date sealing.now c values headers sealing.nonce
          secure lb
        ≡ some after
      → Keeps (set_cookie ∷ []) headers after
  unfolding set_sticky_cookie_lb_context
  set_cookie-Keeps crates c headers secure lb after e =
      let (text, _, e1) =
        bind_some (sealed_text crates sealing.date sealing.now c sealing.nonce secure lb) _ after
          e in
      let (line, _, e2) = bind_some (values.from_str text) _ after e1 in
      subst (Keeps (set_cookie ∷ []) headers) (some_inj e2) (set_lines-Keeps headers set_cookie _)

  add_set_cookie-Keeps :
      (context : HandlerContext) (lb : Option StickyCookie) (headers after : HeaderMap)
      → add_set_cookie values sealing config context lb headers ≡ some after
      → Keeps (set_cookie ∷ []) headers after
  unfolding add_set_cookie
  add_set_cookie-Keeps context none headers after e =
      subst (Keeps (set_cookie ∷ []) headers) (some_inj e) (λ name h. refl)
  add_set_cookie-Keeps context (some lb) headers after e =
      let (c, _, e1) = bind_some context.sticky_cookie_config _ after e in
      let (crates, _, e2) = bind_some sealing.cipher _ after e1 in
      set_cookie-Keeps crates c headers context.sticky_cookie_secure lb after e2

  relay-Agrees :
      (token : Option Bytes) (res : Response) (h : HeaderMap) (name : Bytes)
      → is_one_of name written_keys ≡ false
      → Keeps (set_cookie ∷ []) res.headers h
      → res.status == switching_protocols ≡ false
      → (m : Option HeaderMap)
      → ((after : HeaderMap)
          → m ≡ some after
          → Keeps
              (bytes "server" ∷ alt_svc ∷ [])
              (remove_hop_header (remove_connection_header values h))
              after)
      → Agrees values token res name (relay values sealing config m res.status)
  unfolding relay Agrees
  relay-Agrees token res h name u k s none f = tt
  relay-Agrees token res h name u k s (some after) f =
      let (a, b) = split_keys u in
      (
        refl,
        s,
        f after refl name b
            ∙ removal_lem values h name
            ∙ ap (λ ls. lines_without (hop_headers ++ ls) h name)
                (first_listed_same values res.headers h (k connection refl))
            ∙ ap
                (λ v.
                  if is_one_of name (hop_headers ++ first_listed values res.headers) then [] else v)
                (k name (keeps_one a)),
      )

  reply-Agrees :
      (token : Option Bytes) (mutual_tls : Option Bool) (tls : Bool) (res : Response) (name : Bytes)
      → is_one_of name written_keys ≡ false
      → (m : Option HeaderMap)
      → ((h : HeaderMap) → m ≡ some h → Keeps (set_cookie ∷ []) res.headers h)
      → Agrees values token res name (reply values sealing config token mutual_tls tls res.status m)
  unfolding reply Agrees
  reply-Agrees token mutual_tls tls res name u none f = tt
  reply-Agrees token mutual_tls tls res name u (some h) f =
      let k = f h refl in
      let same = extract_upgrade_same values res.headers h (k connection refl) (k upgrade refl) in
      elim (Bool-cases (res.status == switching_protocols)) [
        | inl s ↦ elim (Bool-cases (should_upgrade token (extract_upgrade values h))) [
          | inl t ↦
              rw (s, t)
                (
                  refl,
                  s,
                  subst (SameProtocol token) same
                      (should_upgrade-SameProtocol token (extract_upgrade values h) t),
                  k name (keeps_one (split_keys u).0),
                )
          | inr t ↦
              rw (s, t)
                (
                  s,
                  subst (λ o. ¬ SameProtocol token o) same
                      (differs token (extract_upgrade values h) t),
                )
        ]
        | inr s ↦ rw s (
            relay-Agrees token res h name u k s
              (generate_response_forwarded values config h mutual_tls tls)
              (λ after e. generate_response_forwarded-Keeps values config h mutual_tls tls after e))
      ]

  -- Whatever becomes of the response of the upstream, for each header that the proxy does not write: a response
  -- that is relayed does not switch protocols, and has lost the hop-by-hop headers and those that the first
  -- `Connection` line lists; a connection is upgraded only on a response that switches to the protocol
  -- that the request asked for; and an upgrade is refused only on another one.
  pub handle_response-Agrees :
      (context : HandlerContext) (token : Option Bytes) (mutual_tls : Option Bool) (tls : Bool)
      (res : Response) (name : Bytes)
      → is_one_of name written_keys ≡ false
      → Agrees values token res name
          (handle_response values sealing config context token mutual_tls tls res)
  unfolding handle_response
  handle_response-Agrees context token mutual_tls tls res name u =
      reply-Agrees token mutual_tls tls res name u
        (add_set_cookie values sealing config context context.context_lb res.headers)
        (add_set_cookie-Keeps context context.context_lb res.headers)
