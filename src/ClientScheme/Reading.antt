-- ===== src/ClientScheme/Reading.antt =====
-- What `X-Forwarded-Proto` says, described by the texts of its lines.
use rust_rpxy.Common.{
  ◌≡◌, ◌⊎◌, ◌↔◌, inl, inr, refl, sym, ap, ◌∙◌, subst, true, false, Option, none, some, List, [],
  ◌∷◌, ◌++◌, append_assoc, append-nil, traverse, ◌==◌, Bool-cases, Bytes, and_then, some_inj,
  ==_iff,
}
use rust_rpxy.HeaderText.{is_empty, trim, split}
use rust_rpxy.HeaderText.Splitting.{is_free, split-free, split_all}
use rust_rpxy.HeaderMap.{HeaderMap, HeaderValues}
use rust_rpxy.HeaderMap.Joined.{later_lines, joined, join_header_values-joined}
use rust_rpxy.Forwarding.{x_forwarded_proto}
use rust_rpxy.ClientScheme.{head_or_empty, non_empty, first_element, xforwarded_proto_first}

abbrev pub StartsNext : Bytes → Type 0
StartsNext [] = Unit
StartsNext (c ∷ s) = c ≡ b','

-- The text before the first comma, or the whole text without one.
abbrev pub FirstPiece : Bytes → Bytes → Type 0
FirstPiece t e = (rest : Bytes) × (t ≡ e ++ rest) × (is_free b',' e ≡ true) × StartsNext rest

-- Every line of `X-Forwarded-Proto` is readable, and the trimmed first piece is `s`, not empty.
abbrev pub XfpSays : HeaderValues → HeaderMap → Bytes → Type 0
XfpSays values headers s =
    (t : Bytes) × (ts : List Bytes) × (e : Bytes) × (traverse values.to_str
        (headers x_forwarded_proto)
      ≡ some (t ∷ ts))
    × FirstPiece t e
    × (trim e ≡ s)
    × (is_empty s ≡ false)

-- Every line is readable, and there is none or the first piece is blank.
abbrev pub XfpSilent : HeaderValues → HeaderMap → Type 0
XfpSilent values headers =
    (traverse values.to_str (headers x_forwarded_proto) ≡ some [])
    ⊎ ((t : Bytes) × (ts : List Bytes) × (e : Bytes) × (traverse values.to_str
            (headers x_forwarded_proto)
          ≡ some (t ∷ ts))
        × FirstPiece t e
        × (is_empty (trim e) ≡ true))

piece : (t : Bytes) → (e : Bytes) × FirstPiece t e
piece [] = ([], ([], refl, refl, tt))
piece (c ∷ t) = elim (Bool-cases (c == b',')) [
  | inl h ↦ ([], (c ∷ t, refl, refl, (==_iff c b',').0 h))
  | inr h ↦ let (e, (rest, q, f, s)) = piece t in (c ∷ e, (rest, ap (◌∷◌ c) q, rw (h, f) refl, s))
]

head-split :
    (e rest : Bytes)
    → is_free b',' e ≡ true
    → StartsNext rest
    → head_or_empty (split b',' (e ++ rest)) ≡ e
head-split e [] f s =
    ap (λ t. head_or_empty (split b',' t)) (append-nil e) ∙ ap head_or_empty (split_all b',' e f)
head-split e (c ∷ r) f s =
    ap (λ d. head_or_empty (split b',' (e ++ d ∷ r))) s ∙ ap head_or_empty (split-free b',' e r f)

next-later :
    (rest : Bytes) (ts : List Bytes) → StartsNext rest → StartsNext (rest ++ later_lines ts)
next-later [] [] s = tt
next-later [] (t ∷ ts) s = refl
next-later (c ∷ r) ts s = s

first_element-piece :
    (t e : Bytes) (ts : List Bytes)
    → FirstPiece t e
    → first_element (joined (t ∷ ts)) ≡ non_empty (trim e)
unfolding first_element
first_element-piece t e ts (rest, q, f, s) =
    ap (λ x. non_empty (trim (head_or_empty (split b',' (x ++ later_lines ts))))) q
    ∙ ap (λ x. non_empty (trim (head_or_empty (split b',' x))))
        (append_assoc e rest (later_lines ts))
    ∙ ap (λ x. non_empty (trim x)) (head-split e (rest ++ later_lines ts) f (next-later rest ts s))

pub non_empty-some : (s x : Bytes) → non_empty s ≡ some x → (s ≡ x) × (is_empty x ≡ false)
unfolding non_empty
non_empty-some [] x h = absurd (cc)
non_empty-some (c ∷ s) x h = (some_inj h, subst (λ y. is_empty y ≡ false) (some_inj h) refl)

pub non_empty-none : (s : Bytes) → non_empty s ≡ none → is_empty s ≡ true
unfolding non_empty
non_empty-none [] h = refl
non_empty-none (c ∷ s) h = absurd (cc)

module _ (values : HeaderValues) (headers : HeaderMap) where
  -- What is read of the texts of the lines.
  abbrev proto_of : Option (List Bytes) → Option (Option Bytes)
  proto_of o = and_then (and_then o (λ ts. some (joined ts))) (λ raw. some (first_element raw))

  read_xfp :
      xforwarded_proto_first values headers
      ≡ proto_of (traverse values.to_str (headers x_forwarded_proto))
  unfolding xforwarded_proto_first
  read_xfp =
      ap (λ o. and_then o (λ raw. some (first_element raw)))
        (join_header_values-joined values headers x_forwarded_proto)

  pub xfp_says :
      (s : Bytes)
      → (xforwarded_proto_first values headers ≡ some (some s)) ↔ XfpSays values headers s
  unfolding first_element
  xfp_says s =
      (λ h. to (traverse values.to_str (headers x_forwarded_proto)) refl (sym read_xfp ∙ h), from)
    where
      to :
          (o : Option (List Bytes))
          → traverse values.to_str (headers x_forwarded_proto) ≡ o
          → proto_of o ≡ some (some s)
          → XfpSays values headers s
      to none q h = absurd (cc)
      to (some []) q h = absurd (cc)
      to (some (t ∷ ts)) q h =
          let (e, p) = piece t in
          let n = non_empty-some (trim e) s (sym (first_element-piece t e ts p) ∙ some_inj h) in
          (t, ts, e, q, p, n.0, n.1)

      from : XfpSays values headers s → xforwarded_proto_first values headers ≡ some (some s)
      from (t, ts, e, q, p, n, b) =
          read_xfp
          ∙ ap proto_of q
          ∙ ap some (first_element-piece t e ts p ∙ ap non_empty n ∙ unfold non_empty in rw b refl)

  pub xfp_silent : (xforwarded_proto_first values headers ≡ some none) ↔ XfpSilent values headers
  unfolding first_element
  xfp_silent =
      (λ h. to (traverse values.to_str (headers x_forwarded_proto)) refl (sym read_xfp ∙ h), from)
    where
      to :
          (o : Option (List Bytes))
          → traverse values.to_str (headers x_forwarded_proto) ≡ o
          → proto_of o ≡ some none
          → XfpSilent values headers
      to none q h = absurd (cc)
      to (some []) q h = inl q
      to (some (t ∷ ts)) q h =
          let (e, p) = piece t in
          inr (
            t,
            ts,
            e,
            q,
            p,
            non_empty-none (trim e) (sym (first_element-piece t e ts p) ∙ some_inj h),
          )

      from : XfpSilent values headers → xforwarded_proto_first values headers ≡ some none
      from (inl q) = read_xfp ∙ ap proto_of q
      from (inr (t, ts, e, q, p, b)) =
          read_xfp
          ∙ ap proto_of q
          ∙ ap some (first_element-piece t e ts p ∙ unfold non_empty in rw b refl)
