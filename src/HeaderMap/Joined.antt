-- ===== src/HeaderMap/Joined.antt =====
-- `join_header_values` of rpxy-lib/src/message_handler/header_ops/forwarding.rs joins the texts of all lines.
use rust_rpxy.Common.{
  ◌≡◌, inl, inr, refl, sym, ap, ◌∙◌, Option, none, some, List, [], ◌∷◌, ◌++◌, append_assoc,
  append-nil, traverse, Option-cases, Bytes, bytes, and_then, ◌>>=◌,
}
use rust_rpxy.HeaderMap.{HeaderMap, HeaderValues, join_rest, join_lines, join_header_values}

abbrev pub later_lines : List Bytes → Bytes
later_lines [] = []
later_lines (t ∷ ts) = bytes ", " ++ t ++ later_lines ts

-- The texts in one line: a comma and a space stand before each but the first.
abbrev pub joined : List Bytes → Option Bytes
joined [] = none
joined (t ∷ ts) = some (t ++ later_lines ts)

join_rest-later_lines :
    (values : HeaderValues) (text : Bytes) (lines : List Bytes)
    → join_rest values text lines
      ≡ and_then (traverse values.to_str lines) (λ ts. some (text ++ later_lines ts))
unfolding join_rest
join_rest-later_lines values text [] = ap some (sym (append-nil text))
join_rest-later_lines values text (l ∷ lines) = elim (Option-cases (values.to_str l)) [
  | inl n ↦ rw n refl
  | inr (s, e) ↦
      rw (e, join_rest-later_lines values (text ++ bytes ", " ++ s) lines)
        (go s (traverse values.to_str lines))
]
  where
    go :
        (s : Bytes) (o : Option (List Bytes))
        → and_then o (λ ts. some (text ++ bytes ", " ++ s ++ later_lines ts))
          ≡ and_then (o >>= λ ts. some (s ∷ ts)) (λ ts. some (text ++ later_lines ts))
    go s none = refl
    go s (some ts) =
        ap (λ t. some (t ++ later_lines ts)) (append_assoc text (bytes ", ") s)
        ∙ ap some (append_assoc text (bytes ", " ++ s) (later_lines ts))

join_lines-joined :
    (values : HeaderValues) (lines : List Bytes)
    → join_lines values lines ≡ and_then (traverse values.to_str lines) (λ ts. some (joined ts))
unfolding join_lines
join_lines-joined values [] = refl
join_lines-joined values (l ∷ lines) = elim (Option-cases (values.to_str l)) [
  | inl n ↦ rw n refl
  | inr (s, e) ↦ rw (e, join_rest-later_lines values s lines) (go s (traverse values.to_str lines))
]
  where
    go :
        (s : Bytes) (o : Option (List Bytes))
        → and_then (and_then o (λ ts. some (s ++ later_lines ts))) (λ t. some (some t))
          ≡ and_then (o >>= λ ts. some (s ∷ ts)) (λ ts. some (joined ts))
    go s none = refl
    go s (some ts) = refl

pub join_header_values-joined :
    (values : HeaderValues) (headers : HeaderMap) (key : Bytes)
    → join_header_values values headers key
      ≡ and_then (traverse values.to_str (headers key)) (λ ts. some (joined ts))
unfolding join_header_values
join_header_values-joined values headers key = join_lines-joined values (headers key)
