-- ===== src/HeaderText.antt =====
-- The text of header values: the `str` functions that rpxy-lib/src/message_handler/header_ops/forwarding.rs
-- calls, and its quoting helpers. `HeaderValue::to_str` yields visible ASCII only, so that a
-- character is a byte, and the white space that `trim` takes off is that of ASCII.
pub mod Quoting
pub mod Splitting
use rust_rpxy.Common.{
  ℕ, ◌+◌, ◌≡◌, Bool, true, false, not, ◌&&◌, ◌||◌, Option, none, some, List, [], ◌∷◌, ◌++◌,
  if◌then◌else◌, ◌==◌, ltb, leb, all, Bytes, bytes_eq, to_ascii_lowercase,
}

abbrev pub quote : ℕ
quote = 34

abbrev pub backslash : ℕ
backslash = 92

abbrev pub is_whitespace : ℕ → Bool
is_whitespace c = leb 9 c && leb c 13 || c == 32

abbrev pub is_empty : Bytes → Bool
is_empty [] = true
is_empty (c ∷ s) = false

unfoldable pub trim_start : Bytes → Bytes
trim_start [] = []
trim_start (c ∷ s) = let rest = trim_start s in if is_whitespace c then rest else c ∷ s

unfoldable pub trim_end : Bytes → Bytes
trim_end [] = []
trim_end (c ∷ s) =
    let rest = trim_end s in if is_whitespace c && is_empty rest then [] else c ∷ rest

unfoldable pub trim : Bytes → Bytes
trim s = trim_end (trim_start s)

unfoldable pub strip_prefix : ℕ → Bytes → Option Bytes
strip_prefix p [] = none
strip_prefix p (c ∷ s) = if c == p then some s else none

cons_some : ℕ → Option Bytes → Option Bytes
cons_some c none = none
cons_some c (some s) = some (c ∷ s)

unfoldable pub strip_suffix : ℕ → Bytes → Option Bytes
unfolding cons_some
strip_suffix p [] = none
strip_suffix p (c ∷ []) = if c == p then some [] else none
strip_suffix p (c ∷ d ∷ s) = cons_some c (strip_suffix p (d ∷ s))

cons_first : ℕ → Option (Bytes × Bytes) → Option (Bytes × Bytes)
cons_first c none = none
cons_first c (some (a, b)) = some (c ∷ a, b)

-- The text before the first separator, and the text after it.
pub split_once : ℕ → Bytes → Option (Bytes × Bytes)
unfolding cons_first
split_once p [] = none
split_once p (c ∷ s) =
    let rest = split_once p s in if c == p then some ([], s) else cons_first c rest

or_here : ℕ → ℕ → Bytes → Option (Bytes × Bytes) → Option (Bytes × Bytes)
or_here p c s (some (a, b)) = some (c ∷ a, b)
or_here p c s none = if c == p then some ([], s) else none

-- The same at the last separator.
unfoldable pub rsplit_once : ℕ → Bytes → Option (Bytes × Bytes)
unfolding or_here
rsplit_once p [] = none
rsplit_once p (c ∷ s) = or_here p c s (rsplit_once p s)

unfoldable pub eq_ignore_ascii_case : Bytes → Bytes → Bool
eq_ignore_ascii_case a b = bytes_eq (to_ascii_lowercase a) (to_ascii_lowercase b)

abbrev pub is_ascii_digit : ℕ → Bool
is_ascii_digit c = leb 48 c && leb c 57

abbrev pub is_ascii_alphanumeric : ℕ → Bool
is_ascii_alphanumeric c = is_ascii_digit c || leb 65 c && leb c 90 || leb 97 c && leb c 122

-- The state of the loop of `split_respecting_quotes` after a byte, and whether that byte is a
-- delimiter outside quotes.
pub record QuoteState : Type 0 where
  pub in_quotes : Bool
  pub escaped : Bool
  pub cut : Bool

abbrev pub quote_step : ℕ → Bool → Bool → ℕ → QuoteState
quote_step delimiter in_quotes true byte = record {
  in_quotes = in_quotes;
  escaped = false;
  cut = false;
}
quote_step delimiter in_quotes false byte =
    if byte == backslash && in_quotes
    then record { in_quotes = in_quotes; escaped = true; cut = false }
    else (if byte == quote
        then record { in_quotes = not in_quotes; escaped = false; cut = false }
        else record {
          in_quotes = in_quotes;
          escaped = false;
          cut = byte == delimiter && not in_quotes;
        })

-- The loop; `segment` is `input[start..idx]`.
pub split_from : ℕ → Bool → Bool → Bytes → Bytes → List Bytes
unfolding trim
split_from delimiter in_quotes escaped segment [] = trim segment ∷ []
split_from delimiter in_quotes escaped segment (byte ∷ input) =
    let next = quote_step delimiter in_quotes escaped byte in
    let segment' = if next.cut then [] else segment ++ byte ∷ [] in
    let rest = split_from delimiter next.in_quotes next.escaped segment' input in
    if next.cut then trim segment ∷ rest else rest

pub split_respecting_quotes : Bytes → ℕ → List Bytes
unfolding split_from
split_respecting_quotes input delimiter = split_from delimiter false false [] input

-- The loop of `unquote_http_value`.
pub unescape : Bool → Bytes → Option Bytes
unfolding cons_some
unescape escaped [] = if escaped then none else some []
unescape escaped (ch ∷ inner) =
    let starts = not escaped && ch == backslash in
    let rest = unescape starts inner in if starts then rest else cons_some ch rest

unescape_some : Option Bytes → Option Bytes
unfolding unescape
unescape_some none = none
unescape_some (some inner) = unescape false inner

inner_of : Option Bytes → Option Bytes
unfolding strip_suffix
inner_of none = none
inner_of (some s) = strip_suffix quote s

unquote_trimmed : Bytes → Option Bytes
unfolding unescape_some inner_of strip_prefix
unquote_trimmed [] = some []
unquote_trimmed (c ∷ s) =
    if c == quote then unescape_some (inner_of (strip_prefix quote (c ∷ s))) else some (c ∷ s)

-- `none` is an error: an unterminated string or escape.
unfoldable pub unquote_http_value : Bytes → Option Bytes
unfolding unquote_trimmed trim
unquote_http_value value = unquote_trimmed (trim value)

pub is_tchar : ℕ → Bool
is_tchar c =
    c == 33
    || (leb 35 c && leb c 39)
    || c == 42
    || c == 43
    || c == 45
    || c == 46
    || c == 94
    || c == 95
    || c == 96
    || c == 124
    || c == 126
    || is_ascii_alphanumeric c

pub escape : Bytes → Bytes
escape [] = []
escape (ch ∷ value) =
    let rest = escape value in
    if ch == backslash || ch == quote then backslash ∷ ch ∷ rest else ch ∷ rest

pub write_forwarded_param_value : Bytes → Bytes → Bytes
unfolding escape is_tchar
write_forwarded_param_value out value =
    if not (is_empty value) && all is_tchar value
    then out ++ value
    else out ++ quote ∷ escape value ++ quote ∷ []

segment_cons : ℕ → List Bytes → List Bytes
segment_cons c [] = (c ∷ []) ∷ []
segment_cons c (s ∷ ss) = (c ∷ s) ∷ ss

-- `str::split` at a character.
unfoldable pub split : ℕ → Bytes → List Bytes
unfolding segment_cons
split p [] = [] ∷ []
split p (c ∷ s) = let rest = split p s in if c == p then [] ∷ rest else segment_cons c rest

-- `.split(',').map(str::trim).filter(|s| !s.is_empty())`.
unfoldable pub non_empty_trimmed : List Bytes → List Bytes
non_empty_trimmed [] = []
non_empty_trimmed (s ∷ ss) =
    let t = trim s in let rest = non_empty_trimmed ss in if is_empty t then rest else t ∷ rest
