-- ===== src/Generation/Keeping.antt =====
-- Which header names an operation leaves alone.
use rust_rpxy.Common.{
  ◌≡◌, refl, sym, subst, ◌∙◌, Bool, true, false, ◌||◌, ◌&&◌, Option, some, List, [], ◌∷◌, ◌++◌,
  if◌then◌else◌, all, and_then, and_then-some, some_inj, Bytes, bytes_eq, bytes_eq_sound,
  Bool-cases, inl, inr, arith,
}
use rust_rpxy.HeaderMap.{
  HeaderMap, HeaderValues, set_lines, insert, contains_key, cookie,
  add_header_entry_overwrite_if_exist, merge_cookies, make_cookie_single_line, join_cookies, remove,
}
use rust_rpxy.HopByHop.Removal.{is_one_of}

-- The lines of every name that is not one of the keys are the same.
abbrev pub Keeps : List Bytes → HeaderMap → HeaderMap → Type 0
Keeps keys before after = (name : Bytes) → is_one_of name keys ≡ false → after name ≡ before name

pub set_lines-Keeps :
    (headers : HeaderMap) (key : Bytes) (lines : List Bytes)
    → Keeps (key ∷ []) headers (set_lines headers key lines)
unfolding set_lines
set_lines-Keeps headers key lines name h = rw (alone (bytes_eq name key) h) refl
  where
    alone : (b : Bool) → b || false ≡ false → b ≡ false
    alone b h = ground arith

split_keys : {a b : Bool} → a || b ≡ false → (a ≡ false) × (b ≡ false)
split_keys h = ground arith

is_one_of-append :
    (name : Bytes) (ks ls : List Bytes)
    → is_one_of name (ks ++ ls) ≡ is_one_of name ks || is_one_of name ls
is_one_of-append name [] ls = refl
is_one_of-append name (k ∷ ks) ls = ground (arith, is_one_of-append name ks ls)

pub Keeps-trans :
    (ks ls : List Bytes) (a b c : HeaderMap) → Keeps ks a b → Keeps ls b c → Keeps (ks ++ ls) a c
Keeps-trans ks ls a b c f g name h =
    let (p, q) = split_keys (sym (is_one_of-append name ks ls) ∙ h) in g name q ∙ f name p

member-false :
    (name key : Bytes) (ls : List Bytes)
    → is_one_of key ls ≡ true
    → is_one_of name ls ≡ false
    → bytes_eq name key ≡ false
member-false name key ls m h = elim (Bool-cases (bytes_eq name key)) [
  | inl e ↦
      let q = subst (λ z. is_one_of z ls ≡ true) (sym (bytes_eq_sound name key e)) m in
      absurd (ground (arith, q, h))
  | inr e ↦ e
]

subset-false :
    (name : Bytes) (ks ls : List Bytes)
    → all (λ k. is_one_of k ls) ks ≡ true
    → is_one_of name ls ≡ false
    → is_one_of name ks ≡ false
subset-false name [] ls s h = refl
subset-false name (k ∷ ks) ls s h =
    ground
      (arith, member-false name k ls (ground arith) h, subset-false name ks ls (ground arith) h)

-- More keys may be named.
pub Keeps-more :
    (ks ls : List Bytes) (a b : HeaderMap)
    → all (λ k. is_one_of k ls) ks ≡ true
    → Keeps ks a b
    → Keeps ls a b
Keeps-more ks ls a b s f name h = f name (subset-false name ks ls s h)

pub add_header_entry-Keeps :
    (values : HeaderValues) (headers : HeaderMap) (key value : Bytes) (after : HeaderMap)
    → add_header_entry_overwrite_if_exist values headers key value ≡ some after
    → Keeps (key ∷ []) headers after
unfolding add_header_entry_overwrite_if_exist
add_header_entry-Keeps values headers key value after e = go (contains_key headers key) e
  where
    inserted :
        (m : Option Bytes)
        → and_then m (λ v. some (insert headers key v)) ≡ some after
        → Keeps (key ∷ []) headers after
    inserted m e =
        let (v, _, q) = and_then-some m (λ v. some (insert headers key v)) after e in
        subst (Keeps (key ∷ []) headers) (some_inj q) (set_lines-Keeps headers key (v ∷ []))

    go :
        (b : Bool)
        → (if b
            then and_then (values.from_bytes value) (λ v. some (insert headers key v))
            else and_then (values.from_str value) (λ v. some (insert headers key v)))
          ≡ some after
        → Keeps (key ∷ []) headers after
    go true e = inserted (values.from_bytes value) e
    go false e = inserted (values.from_str value) e

pub make_cookie_single_line-Keeps :
    (values : HeaderValues) (headers after : HeaderMap)
    → make_cookie_single_line values headers ≡ some after
    → Keeps (cookie ∷ []) headers after
unfolding make_cookie_single_line merge_cookies
make_cookie_single_line-Keeps values headers after e = go (headers cookie) e
  where
    go :
        (vs : List Bytes)
        → merge_cookies values headers vs ≡ some after
        → Keeps (cookie ∷ []) headers after
    go [] e = subst (Keeps (cookie ∷ []) headers) (some_inj e) (λ name h. refl)
    go (v ∷ []) e = subst (Keeps (cookie ∷ []) headers) (some_inj e) (λ name h. refl)
    go (v ∷ w ∷ vs) e =
        let (joined, _, q) =
          and_then-some (values.from_bytes (join_cookies values (v ∷ w ∷ vs)))
            (λ joined. some (insert (remove headers cookie) cookie joined)) after e in
        subst (Keeps (cookie ∷ []) headers) (some_inj q) (λ name h.
          set_lines-Keeps (remove headers cookie) cookie (joined ∷ []) name h
          ∙ set_lines-Keeps headers cookie [] name h)

-- One operation more, on some of the keys.
pub Keeps-then :
    (ks ls : List Bytes) (a b c : HeaderMap)
    → all (λ k. is_one_of k ls) ks ≡ true
    → Keeps ls a b
    → Keeps ks b c
    → Keeps ls a c
Keeps-then ks ls a b c s f g name h = g name (subset-false name ks ls s h) ∙ f name h

pub Keeps-insert :
    (key : Bytes) (lines ls : List Bytes) (a b : HeaderMap)
    → is_one_of key ls && true ≡ true
    → Keeps ls a b
    → Keeps ls a (set_lines b key lines)
Keeps-insert key lines ls a b s f =
    Keeps-then (key ∷ []) ls a b (set_lines b key lines) s f (set_lines-Keeps b key lines)
