-- ===== src/RequestOps/Hosts.antt =====
-- A host names the same application with a port and without one.
use rust_rpxy.Common.{
  ℕ, ◌+◌, ◌≡◌, refl, sym, ap, ◌∙◌, inl, inr, Bool, true, false, not, ◌||◌, [], ◌∷◌, ◌++◌, arith,
  all, ◌==◌, leb, Bytes, to_ascii_lowercase, Bool-cases, ◌↔◌, Option, none, some, is_some, bytes_eq,
  bytes_eq_sound, bytes_eq_refl, bytes,
}
use rust_rpxy.HeaderMap.{get}
use rust_rpxy.RequestOps.{
  before, colons, plain_host, drop_port, agree, dropped, Request, inspect_parse_host,
}

abbrev pub free_of : ℕ → Bytes → Bool
free_of p s = all (λ c. not (c == p)) s

abbrev pub opens_bracket : Bytes → Bool
opens_bracket [] = false
opens_bracket (c ∷ s) = c == 91

before-append : (p : ℕ) (s t : Bytes) → free_of p s ≡ true → before p (s ++ p ∷ t) ≡ s
before-append p [] t h = ground arith
before-append p (c ∷ s) t h = ground (arith, before-append p s t)

before_all : (p : ℕ) (s : Bytes) → free_of p s ≡ true → before p s ≡ s
before_all p [] h = refl
before_all p (c ∷ s) h = ground (arith, before_all p s)

colons-free : (s : Bytes) → free_of 58 s ≡ true → colons s ≡ 0
colons-free [] h = refl
colons-free (c ∷ s) h = ground (arith, colons-free s)

colons-append : (s t : Bytes) → colons (s ++ t) ≡ colons s + colons t
colons-append [] t = omega arith
colons-append (c ∷ s) t = omega (arith, colons-append s t)

plain_port :
    (host port : Bytes)
    → free_of 58 host ≡ true
    → free_of 58 port ≡ true
    → plain_host (host ++ 58 ∷ port) ≡ to_ascii_lowercase host
unfolding plain_host
plain_port host port h k = rw (one, before-append 58 host port h) refl
  where
    one : leb 2 (colons (host ++ 58 ∷ port)) ≡ false
    one = ground (arith, colons-append host (58 ∷ port), colons-free host h, colons-free port k)

plain_alone : (host : Bytes) → free_of 58 host ≡ true → plain_host host ≡ to_ascii_lowercase host
unfolding plain_host
plain_alone host h = rw (none_there, before_all 58 host h) refl
  where
    none_there : leb 2 (colons host) ≡ false
    none_there = ground (arith, colons-free host h)

drop_plain : (v : Bytes) → opens_bracket v ≡ false → drop_port v ≡ plain_host v
unfolding drop_port
drop_plain [] h = refl
drop_plain (c ∷ v) h = rw h refl

-- A host without a colon that does not start with a bracket is taken in lower case, with a port after
-- it, which has no colon either, and without one.
pub drop_port-port :
    (host port : Bytes)
    → free_of 58 host ≡ true
    → free_of 58 port ≡ true
    → opens_bracket host ≡ false
    → (drop_port (host ++ 58 ∷ port) ≡ to_ascii_lowercase host)
      × (drop_port host ≡ to_ascii_lowercase host)
drop_port-port host port h k b = (
  drop_plain (host ++ 58 ∷ port) (still host b) ∙ plain_port host port h k,
  drop_plain host b ∙ plain_alone host h,
)
  where
    still : (host : Bytes) → opens_bracket host ≡ false → opens_bracket (host ++ 58 ∷ port) ≡ false
    still [] b = refl
    still (c ∷ s) b = b

-- An IPv6 address in brackets is taken without them, whatever follows.
pub drop_port-bracket :
    (addr rest : Bytes) → free_of 93 addr ≡ true → drop_port (91 ∷ addr ++ 93 ∷ rest) ≡ addr
unfolding drop_port
drop_port-bracket addr rest h = before-append 93 addr rest h

-- A name that is there is `h`.
abbrev pub Names : Option Bytes → Bytes → Type 0
Names none h = Unit
Names (some v) h = v ≡ h

clash : {b : Bool} → b ≡ true → b ≡ false → ⊥
clash p q = cc

some_once : {v h : Bytes} → some v ≡ some h → v ≡ h
some_once q = ground arith

agree_iff :
    (a b : Option Bytes) (h : Bytes)
    → (agree a b ≡ some h) ↔ (Names a h × Names b h × (is_some a || is_some b ≡ true))
unfolding agree
agree_iff none none h = (λ e. absurd (cc), λ (x, y, z). absurd (cc))
agree_iff none (some v) h = (λ e. (tt, ground arith, refl), λ (x, y, z). ap some y)
agree_iff (some v) none h = (λ e. (ground arith, tt, refl), λ (x, y, z). ap some x)
agree_iff (some v) (some w) h = elim (Bool-cases (bytes_eq v w)) [
  | inl e ↦
      rw e
        (λ q. (some_once q, sym (bytes_eq_sound v w e) ∙ some_once q, refl), λ (x, y, z). ap some x)
  | inr e ↦ rw e (
    λ q. absurd (cc),
    λ (x, y, z). absurd (clash (sym (ap (bytes_eq v) (x ∙ sym y)) ∙ bytes_eq_refl v) e),
  )
]

-- `inspect_parse_host` answers with a host exactly if the `Host` header or the URI names one, and
-- all that is named is that host once its port is dropped.
pub inspect_parse_host_iff :
    (req : Request) (h : Bytes)
    → (inspect_parse_host req ≡ some h) ↔ (
        Names (dropped (get req.headers (bytes "host"))) h
        × Names (dropped req.uri.host) h
        × (is_some (dropped (get req.headers (bytes "host"))) || is_some (dropped req.uri.host)
            ≡ true))
unfolding inspect_parse_host
inspect_parse_host_iff req h =
    agree_iff (dropped (get req.headers (bytes "host"))) (dropped req.uri.host) h
