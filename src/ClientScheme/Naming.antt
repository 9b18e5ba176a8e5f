-- ===== src/ClientScheme/Naming.antt =====
-- What `Forwarded` says of the protocol, described by the texts of its lines.
use rust_rpxy.Common.{
  ◌≡◌, ◌⊎◌, ◌↔◌, inl, inr, refl, sym, ap, ◌∙◌, subst, true, false, Option, none, some, List, [],
  ◌∷◌, ◌++◌, traverse, not, Bool-cases, Bytes, bytes, and_then, some_inj, if◌then◌else◌,
}
use rust_rpxy.HeaderText.{
  is_empty, trim, split_once, split_respecting_quotes, eq_ignore_ascii_case, unquote_http_value,
}
use rust_rpxy.HeaderText.Splitting.{split_once-nil}
use rust_rpxy.HeaderMap.{HeaderMap, HeaderValues}
use rust_rpxy.HeaderMap.Joined.{later_lines, joined, join_header_values-joined}
use rust_rpxy.Forwarding.{forwarded}
use rust_rpxy.ClientScheme.{
  non_empty, first_non_empty, proto_value, param_proto, params_proto, entry_proto, raw_proto,
  forwarded_first_proto,
}
use rust_rpxy.ClientScheme.Reading.{non_empty-some}

-- The parameter is named `proto`, in any case of letters, and its unquoted value is `s`, not empty.
abbrev pub Names : Bytes → Bytes → Type 0
Names p s =
    (key : Bytes) × (value : Bytes) × (split_once b'=' p ≡ some (key, value))
    × (eq_ignore_ascii_case (trim key) (bytes "proto") ≡ true)
    × (unquote_http_value (trim value) ≡ some s)
    × (is_empty s ≡ false)

-- The parameter has no value or another name.
abbrev pub IsOther : Bytes → Type 0
IsOther p =
    (split_once b'=' p ≡ none)
    ⊎ ((key : Bytes) × (value : Bytes) × (split_once b'=' p ≡ some (key, value))
        × (eq_ignore_ascii_case (trim key) (bytes "proto") ≡ false))

-- The first parameter of that name is what counts.
abbrev pub ParamsSay : List Bytes → Bytes → Type 0
ParamsSay [] s = ⊥
ParamsSay (p ∷ ps) s = Names p s ⊎ IsOther p × ParamsSay ps s

-- The first entry that is not empty is what counts.
abbrev pub EntriesSay : List Bytes → Bytes → Type 0
EntriesSay [] s = ⊥
EntriesSay (e ∷ es) s =
    (is_empty e ≡ true) × EntriesSay es s
    ⊎ (is_empty e ≡ false) × ParamsSay (split_respecting_quotes e b';') s

-- Every line of `Forwarded` is readable, and the entries of all lines say `s`.
abbrev pub ForwardedSays : HeaderValues → HeaderMap → Bytes → Type 0
ForwardedSays values headers s =
    (t : Bytes) × (ts : List Bytes) × (traverse values.to_str (headers forwarded) ≡ some (t ∷ ts))
    × EntriesSay (split_respecting_quotes (t ++ later_lines ts) b',') s

param_cons :
    (p : Bytes) (ps : List Bytes)
    → params_proto (p ∷ ps) ≡ param_proto (split_once b'=' p) (params_proto ps)
unfolding params_proto param_proto
param_cons [] ps = rw (split_once-nil b'=') refl
param_cons (c ∷ p) ps = refl

proto_value-some :
    (o : Option Bytes) (s : Bytes)
    → proto_value o ≡ some (some s)
    → (o ≡ some s) × (is_empty s ≡ false)
unfolding proto_value
proto_value-some none s h = absurd (cc)
proto_value-some (some v) s h = let (q, b) = non_empty-some v s (some_inj h) in (ap some q, b)

param_say :
    (p s : Bytes) (rest : Option (Option Bytes)) {R : Type 0}
    → (rest ≡ some (some s)) ↔ R
    → (param_proto (split_once b'=' p) rest ≡ some (some s)) ↔ (Names p s ⊎ IsOther p × R)
unfolding param_proto
param_say p s rest {R = R} h = (to (split_once b'=' p) refl, from)
  where
    to :
        (o : Option (Bytes × Bytes))
        → split_once b'=' p ≡ o
        → param_proto o rest ≡ some (some s)
        → Names p s ⊎ IsOther p × R
    to none q e = inr (inl q, h.0 e)
    to (some (key, value)) q e =
        elim (Bool-cases (eq_ignore_ascii_case (trim key) (bytes "proto"))) [
          | inl k ↦
              let (u, b) = proto_value-some (unquote_http_value (trim value)) s (
                subst
                  (λ x.
                    (if not x then rest else proto_value (unquote_http_value (trim value)))
                    ≡ some (some s))
                  k e) in
              inl (key, value, q, k, u, b)
          | inr k ↦ inr (
            inr (key, value, q, k),
            h.0 (
                subst
                  (λ x.
                    (if not x then rest else proto_value (unquote_http_value (trim value)))
                    ≡ some (some s))
                  k e),
          )
        ]

    from : Names p s ⊎ IsOther p × R → param_proto (split_once b'=' p) rest ≡ some (some s)
    from (inl (key, value, q, k, u, b)) =
        rw (q, k, u) (unfold proto_value in unfold non_empty in rw b refl)
    from (inr (inl n, r)) = rw n (h.1 r)
    from (inr (inr (key, value, q, k), r)) = rw (q, k) (h.1 r)

params_say : (ps : List Bytes) (s : Bytes) → (params_proto ps ≡ some (some s)) ↔ ParamsSay ps s
unfolding params_proto
params_say [] s = (λ h. absurd (cc), λ h. absurd h)
params_say (p ∷ ps) s =
    let (to, from) = param_say p s (params_proto ps) (params_say ps s) in
    (λ h. to (sym (param_cons p ps) ∙ h), λ r. param_cons p ps ∙ from r)

entries_say :
    (es : List Bytes) (s : Bytes)
    → (entry_proto (first_non_empty es) ≡ some (some s)) ↔ EntriesSay es s
unfolding entry_proto first_non_empty
entries_say [] s = (λ h. absurd (cc), λ h. absurd h)
entries_say ([] ∷ es) s =
    let (to, from) = entries_say es s in
    (λ h. inl (refl, to h), λ r. elim r [ inl (_, q) ↦ from q | inr (b, _) ↦ absurd (cc) ])
entries_say ((c ∷ e) ∷ es) s =
    let (to, from) = params_say (split_respecting_quotes (c ∷ e) b';') s in
    (λ h. inr (refl, to h), λ r. elim r [ inl (b, _) ↦ absurd (cc) | inr (_, q) ↦ from q ])

-- `forwarded_first_proto` finds the protocol that the header says.
pub forwarded_says :
    (values : HeaderValues) (headers : HeaderMap) (s : Bytes)
    → (forwarded_first_proto values headers ≡ some (some s)) ↔ ForwardedSays values headers s
unfolding forwarded_first_proto raw_proto
forwarded_says values headers s =
    (λ h. to (traverse values.to_str (headers forwarded)) refl (sym read ∙ h), from)
  where
    found : Option (List Bytes) → Option (Option Bytes)
    found o = and_then (and_then o (λ ts. some (joined ts))) raw_proto

    read : forwarded_first_proto values headers ≡ found (traverse values.to_str (headers forwarded))
    read = ap (λ o. and_then o raw_proto) (join_header_values-joined values headers forwarded)

    to :
        (o : Option (List Bytes))
        → traverse values.to_str (headers forwarded) ≡ o
        → found o ≡ some (some s)
        → ForwardedSays values headers s
    to none q h = absurd (cc)
    to (some []) q h = absurd (cc)
    to (some (t ∷ ts)) q h =
        (t, ts, q, (entries_say (split_respecting_quotes (t ++ later_lines ts) b',') s).0 h)

    from : ForwardedSays values headers s → forwarded_first_proto values headers ≡ some (some s)
    from (t, ts, q, r) =
        read ∙ ap found q ∙ (entries_say (split_respecting_quotes (t ++ later_lines ts) b',') s).1 r
