-- ===== src/StickyHeaders/Returning.antt =====
-- A sticky cookie that was set comes back in a request.
use rust_rpxy.Common.{
  ℕ, ◌≡◌, ◌<◌, refl, sym, ap, ◌∙◌, subst, Bool, true, false, not, Option, none, some, List, [], ◌∷◌,
  ◌++◌, if◌then◌else◌, ltb, ◌==◌, ◌+◌, ◌≤◌, ◌||◌, ensure-some, length, all, arith, unwrap_or,
  bind_some, some_inj, ◌>>=◌, Bytes, bytes, starts_with, to_ascii_lowercase, bytes_eq,
  bytes_eq_refl, all-append, and-intro, and-elim,
}
use rust_rpxy.HeaderText.{is_empty, split}
use rust_rpxy.HeaderText.Splitting.{is_free, no_whitespace, trim_id, split-free, split_once-free}
use rust_rpxy.HeaderMap.{HeaderMap, HeaderValues, contains_key, first, cookie}
use rust_rpxy.LoadBalance.Sticky.{StickyCookie, StickyCookieConfig, build_sticky_cookie}
use rust_rpxy.StickySeal.{
  SealCrates, version_v1, nonce_len, expires_len, max_server_id_len, base64_url_no_pad_encoded_len,
  be_bytes, seal_server_id,
}
use rust_rpxy.StickySeal.Opening.{SealLaws, open-seal_server_id}
use rust_rpxy.StickyHeaders.Passing.{cookie_text, Passed, join-cookie_text, pass_on-Passed}
use rust_rpxy.StickyHeaders.Picking.{starts_with-append, append_assoc, filter_one, filter_others}
use rust_rpxy.StickyHeaders.{
  name_prefix, aad_of, value_of, parse_sticky_cookie, cookies_of, join_cookies, pass_on, context_of,
  taken, takeout_sticky_cookie_lb_context, attributes, to_set_cookie_value_with_value, sealed_text,
}

-- What `STICKY_COOKIE_NAME` is: in lower case, without white space, `=` and `;`.
pub record IsCookieName (name : Bytes) : Type 0 where
  pub lower : to_ascii_lowercase name ≡ name
  pub no_equals : is_free 61 name ≡ true
  pub no_semicolon : is_free 59 name ≡ true
  pub no_space : no_whitespace name ≡ true

-- What the coding writes, letters, digits, `-` and `_`, is free of semicolons and white space.
pub record CodingLaws (crates : SealCrates) : Type 0 where
  pub no_semicolon : (b : Bytes) → is_free 59 (crates.encode b) ≡ true
  pub no_space : (b : Bytes) → no_whitespace (crates.encode b) ≡ true

has_cookie :
    (values : HeaderValues) (lines xs : List Bytes) (y : Bytes) (ys : List Bytes)
    → cookies_of values lines ≡ xs ++ y ∷ ys
    → contains_key (λ k. lines) cookie ≡ true
unfolding cookies_of
has_cookie values [] [] y ys e = absurd (cc)
has_cookie values [] (x ∷ xs) y ys e = absurd (cc)
has_cookie values (l ∷ lines) xs y ys e = refl

parsed :
    (name val : Bytes)
    → IsCookieName name
    → no_whitespace val ≡ true
    → is_empty val ≡ false
    → parse_sticky_cookie (name ++ 61 ∷ val) name ≡ some (record { name = name; value = val })
unfolding parse_sticky_cookie value_of
parsed name val n w e =
    rw
      (
        split_once-free 61 name val n.no_equals,
        trim_id name n.no_space,
        trim_id val w,
        e,
        bytes_eq_refl name,
      )
      refl

-- The pair of a `Set-Cookie` line, as a client reads it.
abbrev pub pair_of : Bytes → Bytes
pair_of text = unwrap_or (first (split 59 text)) []

pair_free :
    (name val : Bytes)
    → is_free 59 name ≡ true
    → is_free 59 val ≡ true
    → is_free 59 (name ++ 61 ∷ val) ≡ true
pair_free name val n v = all-append (λ c. not (c == 59)) name (61 ∷ val) ∙ and-intro n v

pair_lem :
    (name val rest : Bytes)
    → is_free 59 name ≡ true
    → is_free 59 val ≡ true
    → pair_of (name ++ (61 ∷ val) ++ 59 ∷ rest) ≡ name ++ 61 ∷ val
pair_lem name val rest n v =
    ap (λ ls. unwrap_or (first ls) [])
      (split-free 59 (name ++ 61 ∷ val) rest (pair_free name val n v))

is_empty-false : (s : Bytes) → 1 ≤ length s → is_empty s ≡ false
is_empty-false [] h = absurd (omega (arith, h))
is_empty-false (c ∷ s) h = refl

encoded_len_pos : (n : ℕ) → 1 ≤ n → 1 ≤ base64_url_no_pad_encoded_len n
unfolding base64_url_no_pad_encoded_len
encoded_len_pos n h = ground arith

module _ (crates : SealCrates) (laws : SealLaws crates) (coding : CodingLaws crates)
    (date : ℕ → Option Bytes) (config : StickyCookieConfig) (named : IsCookieName config.name) where
  record Sent (nonce id text : Bytes) (expires : ℕ) : Type 0 where
    pub sealed : Bytes
    pub is_sealed : seal_server_id crates (aad_of config) nonce id expires ≡ some sealed
    pub pair : pair_of text ≡ config.name ++ 61 ∷ sealed
    pub no_space : no_whitespace sealed ≡ true
    pub not_empty : is_empty sealed ≡ false

  sealed_plain :
      (nonce id sealed : Bytes) (expires : ℕ)
      → seal_server_id crates (aad_of config) nonce id expires ≡ some sealed
      → (is_free 59 sealed ≡ true) × (no_whitespace sealed ≡ true) × (is_empty sealed ≡ false)
  unfolding seal_server_id
  sealed_plain nonce id sealed expires e =
      let (_, e1) =
        ensure-some (not (is_empty id || ltb max_server_id_len (length id))) _ sealed e in
      let (ct, _, e2) =
        bind_some (crates.encrypt nonce (aad_of config) (be_bytes expires_len expires ++ id)) _
          sealed e1 in
      let b = version_v1 ∷ nonce ++ ct in
      subst (λ s. (is_free 59 s ≡ true) × (no_whitespace s ≡ true) × (is_empty s ≡ false))
        (some_inj e2)
        (
          coding.no_semicolon b,
          coding.no_space b,
          is_empty-false (crates.encode b) (
              subst (λ n. 1 ≤ n) (sym (laws.coded_length b))
                (encoded_len_pos (length b) (omega arith))),
        )

  sealed_text-Sent :
      (nonce id text : Bytes) (now issued : ℕ) (secure : Bool)
      → sealed_text crates date now config nonce secure (build_sticky_cookie config issued id)
        ≡ some text
      → Sent nonce id text (issued + config.duration)
  unfolding sealed_text build_sticky_cookie to_set_cookie_value_with_value
  sealed_text-Sent nonce id text now issued secure e =
      let (sealed, p, e1) =
        bind_some (seal_server_id crates (aad_of config) nonce id (issued + config.duration)) _ text
          e in
      let (exp_str, _, e2) = bind_some (date (issued + config.duration)) _ text e1 in
      let after =
        attributes now secure
          (record {
            expires = issued + config.duration;
            domain = to_ascii_lowercase config.domain;
            path = config.path;
          })
          exp_str in
      let (f, w, n) = sealed_plain nonce id sealed (issued + config.duration) p in
      record {
        sealed = sealed;
        is_sealed = p;
        pair =
            subst (λ t. pair_of t ≡ config.name ++ 61 ∷ sealed)
              (ap (λ name. name ++ (61 ∷ sealed) ++ 59 ∷ after) (sym named.lower) ∙ some_inj e2)
              (pair_lem config.name sealed after named.no_semicolon f);
        no_space = w;
        not_empty = n;
      }

  is_sticky_pair :
      (nonce id text : Bytes) (expires : ℕ)
      → Sent nonce id text expires
      → starts_with (pair_of text) (name_prefix config) ≡ true
  unfolding name_prefix
  is_sticky_pair nonce id text expires s =
      ap (λ p. starts_with p (config.name ++ bytes "="))
        (s.pair ∙ append_assoc config.name (bytes "=") s.sealed)
      ∙ starts_with-append (config.name ++ bytes "=") s.sealed

  opened :
      (values : HeaderValues) (nonce id text : Bytes) (expires later : ℕ)
      → length nonce ≡ nonce_len
      → expires < 9223372036854775808
      → crates.from_utf8 id ≡ some id
      → Sent nonce id text expires
      → context_of values crates later config (parse_sticky_cookie (pair_of text) config.name) ≡ (
          if ltb later expires
          then some (record { value = record { name = config.name; value = id }; info = none })
          else none)
  unfolding context_of
  opened values nonce id text expires later l fits utf8 s =
      rw
        (
          s.pair,
          parsed config.name s.sealed named s.no_space s.not_empty,
          open-seal_server_id crates laws (aad_of config) nonce id expires later s.sealed l fits
              utf8 s.is_sealed,
        )
        (go (ltb later expires))
    where
      context : Bytes → StickyCookie
      context server_id = record {
        value = record { name = config.name; value = server_id };
        info = none;
      }

      go :
          (b : Bool)
          → ((if b then some id else none) >>= λ server_id. some (context server_id))
            ≡ (if b then some (context id) else none)
      go true = refl
      go false = refl

  takeout_passes :
      (values : HeaderValues) (nonce id text : Bytes) (issued now later : ℕ) (secure : Bool)
      (headers : HeaderMap) (xs ys : List Bytes)
      → length nonce ≡ nonce_len
      → issued + config.duration < 9223372036854775808
      → crates.from_utf8 id ≡ some id
      → sealed_text crates date now config nonce secure (build_sticky_cookie config issued id)
        ≡ some text
      → cookies_of values (headers cookie) ≡ xs ++ pair_of text ∷ ys
      → all (λ c. not (starts_with c (name_prefix config))) (xs ++ ys) ≡ true
      → takeout_sticky_cookie_lb_context values crates later config headers ≡ (
          pass_on values headers (join_cookies (xs ++ ys)) >>= λ h. some (
            h,
            (if ltb later (issued + config.duration)
                then some
                    (record { value = record { name = config.name; value = id }; info = none })
                else none),
          ))
  unfolding takeout_sticky_cookie_lb_context taken
  takeout_passes values nonce id text issued now later secure headers xs ys l fits utf8 e c o =
      let s = sealed_text-Sent nonce id text now issued secure e in
      let f = λ (p : Bytes). starts_with p (name_prefix config) in
      let (ox, oy) = and-elim (sym (all-append (λ p. not (f p)) xs ys) ∙ o) in
      let t = is_sticky_pair nonce id text (issued + config.duration) s in
      rw
        (
          has_cookie values (headers cookie) xs (pair_of text) ys c,
          c,
          filter_one f xs (pair_of text) ys ox t oy,
          filter_others (λ p. not (f p)) xs (pair_of text) ys ox (ap not t) oy,
          opened values nonce id text (issued + config.duration) later l fits utf8 s,
        )
        refl

  -- A client that sends the pair of a sticky cookie back, among other cookies: the upstream gets one
  -- `Cookie` line with the other cookies in their order and without the sticky one, no such line if they are
  -- empty, and the other headers as they were; the server id is given to the balancer until the
  -- cookie expires, from when on none is given. The request fails only if the other cookies are no
  -- header value.
  pub takeout-sealed_text :
      (values : HeaderValues) (nonce id text : Bytes) (issued now later : ℕ) (secure : Bool)
      (headers : HeaderMap) (xs ys : List Bytes) (name : Bytes)
      → length nonce ≡ nonce_len
      → issued + config.duration < 9223372036854775808
      → crates.from_utf8 id ≡ some id
      → sealed_text crates date now config nonce secure (build_sticky_cookie config issued id)
        ≡ some text
      → cookies_of values (headers cookie) ≡ xs ++ pair_of text ∷ ys
      → all (λ c. not (starts_with c (name_prefix config))) (xs ++ ys) ≡ true
      → bytes_eq name cookie ≡ false
      → Passed values headers name
          (cookie_text (xs ++ ys))
          (if ltb later (issued + config.duration)
            then some (record { value = record { name = config.name; value = id }; info = none })
            else none)
          (takeout_sticky_cookie_lb_context values crates later config headers)
  takeout-sealed_text values nonce id text issued now later secure headers xs ys name l fits utf8 e
        c o u =
      rw
        (
          takeout_passes values nonce id text issued now later secure headers xs ys l fits utf8 e c
              o,
          join-cookie_text (xs ++ ys),
        )
        (pass_on-Passed values headers name (cookie_text (xs ++ ys)) _ u)
