-- ===== src/HeaderText/Quoting.antt =====
-- A parameter value that is written, quoted or not, is read back.
use rust_rpxy.Common.{
  ℕ, ◌≡◌, refl, ap, true, false, some, [], ◌∷◌, ◌++◌, arith, ◌==◌, all, Bytes, Bool-cases, ◌⊎◌, ◌∙◌,
  inl, inr,
}
use rust_rpxy.HeaderText.{
  quote, is_whitespace, trim_start, trim_end, trim, strip_suffix, unescape, unquote_http_value,
  unquote_trimmed, unescape_some, inner_of, strip_prefix, is_tchar, escape,
  write_forwarded_param_value,
}

trim_end_last : (s : Bytes) (c : ℕ) → is_whitespace c ≡ false → trim_end (s ++ c ∷ []) ≡ s ++ c ∷ []
unfolding trim_end
trim_end_last [] c h = ground arith
trim_end_last (x ∷ []) c h = ground (arith, trim_end_last [] c h)
trim_end_last (x ∷ y ∷ s) c h = ground (arith, trim_end_last (y ∷ s) c h)

strip_suffix-append : (s : Bytes) (c : ℕ) → strip_suffix c (s ++ c ∷ []) ≡ some s
unfolding strip_suffix
strip_suffix-append [] c = ground arith
strip_suffix-append (x ∷ []) c = ground (arith, strip_suffix-append [] c)
strip_suffix-append (x ∷ y ∷ s) c = ground (arith, strip_suffix-append (y ∷ s) c)

unescape-escape : (v : Bytes) → unescape false (escape v) ≡ some v
unfolding unescape escape
unescape-escape [] = refl
unescape-escape (c ∷ v) = ground (arith, unescape-escape v)

is_whitespace-tchar :
    (c : ℕ) → is_tchar c ≡ true → (is_whitespace c ≡ false) × ((c == quote) ≡ false)
unfolding is_tchar
is_whitespace-tchar c h = ground arith

trim_end-tchar : (s : Bytes) → all is_tchar s ≡ true → trim_end s ≡ s
unfolding trim_end
trim_end-tchar [] h = refl
trim_end-tchar (c ∷ s) h = ground (arith, trim_end-tchar s, is_whitespace-tchar c)

trim_quoted : (s : Bytes) → trim (quote ∷ s ++ quote ∷ []) ≡ quote ∷ s ++ quote ∷ []
unfolding trim trim_start
trim_quoted s = trim_end_last (quote ∷ s) quote refl

unquote_quoted : (s : Bytes) → unquote_trimmed (quote ∷ s ++ quote ∷ []) ≡ unescape false s
unfolding unquote_trimmed inner_of strip_prefix unescape_some
unquote_quoted s = ap unescape_some (strip_suffix-append s quote)

unquote_token :
    (c : ℕ) (s : Bytes) → all is_tchar (c ∷ s) ≡ true → unquote_http_value (c ∷ s) ≡ some (c ∷ s)
unfolding unquote_http_value trim trim_start unquote_trimmed
unquote_token c s h = ground (arith, trim_end-tchar (c ∷ s) h, is_whitespace-tchar c)

quoted_back : (v : Bytes) → unquote_http_value (quote ∷ escape v ++ quote ∷ []) ≡ some v
unfolding unquote_http_value
quoted_back v =
    ap unquote_trimmed (trim_quoted (escape v)) ∙ unquote_quoted (escape v) ∙ unescape-escape v

write_cases :
    (c : ℕ) (s : Bytes)
    → (all is_tchar (c ∷ s) ≡ true) × (write_forwarded_param_value [] (c ∷ s) ≡ c ∷ s)
      ⊎ (write_forwarded_param_value [] (c ∷ s) ≡ quote ∷ escape (c ∷ s) ++ quote ∷ [])
unfolding write_forwarded_param_value
write_cases c s = elim (Bool-cases (all is_tchar (c ∷ s))) [
  | inl h ↦ inl (h, rw h)
  | inr h ↦ inr (rw h)
]

-- Whatever a parameter's value is, what `write_forwarded_param_value` appends for it is read back
-- by `unquote_http_value` as that value.
pub unquote-write :
    (value : Bytes) → unquote_http_value (write_forwarded_param_value [] value) ≡ some value
unfolding write_forwarded_param_value
unquote-write [] = quoted_back []
unquote-write (c ∷ s) = elim (write_cases c s) [
  | inl (h, e) ↦ ap unquote_http_value e ∙ unquote_token c s h
  | inr e ↦ ap unquote_http_value e ∙ quoted_back (c ∷ s)
]
