-- ===== src/StickyHeaders/Passing.antt =====
-- The `Cookie` header that goes on to the upstream when the sticky cookie has been taken out.
use rust_rpxy.Common.{
  ◌≡◌, ◌⊎◌, inl, inr, refl, sym, ap, ◌∙◌, false, Option, none, some, List, [], ◌∷◌, ◌++◌,
  append_assoc, append-nil, ◌>>=◌, Bytes, bytes, bytes_eq, Option-cases,
}
use rust_rpxy.HeaderText.{is_empty}
use rust_rpxy.HeaderMap.{HeaderMap, HeaderValues, insert, remove, set_lines, cookie}
use rust_rpxy.LoadBalance.Sticky.{StickyCookie}
use rust_rpxy.StickyHeaders.{join_cookies, pass_on}

abbrev pub later_cookies : List Bytes → Bytes
later_cookies [] = []
later_cookies (c ∷ cs) = bytes "; " ++ c ++ later_cookies cs

-- The cookies in one line: `; ` stands before each but the first.
abbrev pub cookie_text : List Bytes → Bytes
cookie_text [] = []
cookie_text (c ∷ cs) = c ++ later_cookies cs

pub join-cookie_text : (cs : List Bytes) → join_cookies cs ≡ cookie_text cs
unfolding join_cookies
join-cookie_text [] = refl
join-cookie_text (c ∷ []) = sym (append-nil c)
join-cookie_text (c ∷ d ∷ cs) =
    ap (λ t. c ++ bytes "; " ++ t) (join-cookie_text (d ∷ cs))
    ∙ append_assoc c (bytes "; ") (d ++ later_cookies cs)

-- For a header `name` other than `Cookie`: without a text to pass on, `Cookie` has no line, and with one
-- it has that line only, unless it is no header value, which is an error. `name` keeps its lines.
abbrev pub Passed :
    HeaderValues
    → HeaderMap
    → Bytes
    → Bytes
    → Option StickyCookie
    → Option (HeaderMap × Option StickyCookie)
    → Type 0
Passed values headers name text context r =
    ((text ≡ [])
      × ((h : HeaderMap) × (r ≡ some (h, context)) × (h cookie ≡ []) × (h name ≡ headers name)))
    ⊎ ((is_empty text ≡ false)
        × ((v : Bytes) × (h : HeaderMap) × (values.from_str text ≡ some v)
            × (r ≡ some (h, context))
            × (h cookie ≡ v ∷ [])
            × (h name ≡ headers name)))
    ⊎ ((is_empty text ≡ false) × (values.from_str text ≡ none) × (r ≡ none))

pub pass_on-Passed :
    (values : HeaderValues) (headers : HeaderMap) (name text : Bytes)
    (context : Option StickyCookie)
    → bytes_eq name cookie ≡ false
    → Passed values headers name text context
        (pass_on values headers text >>= λ h. some (h, context))
unfolding pass_on set_lines
pass_on-Passed values headers name [] context u =
    inl (refl, (remove headers cookie, refl, refl, rw u refl))
pass_on-Passed values headers name (c ∷ s) context u =
    elim (Option-cases (values.from_str (c ∷ s))) [
      | inl n ↦ inr (inr (refl, n, rw n refl))
      | inr (v, e) ↦
          inr (
            inl (refl, (v, insert (remove headers cookie) cookie v, e, rw e refl, refl, rw u refl)))
    ]
