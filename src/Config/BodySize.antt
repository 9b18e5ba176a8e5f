-- ===== src/Config/BodySize.antt =====
-- `parse_body_size` of rpxy-bin/src/config/toml.rs.
use rust_rpxy.Common.{
  ℕ, ◌*◌, not, ◌&&◌, ◌||◌, Option, none, some, [], ◌∷◌, if◌then◌else◌, ◌==◌, ltb, all, ensure, ◌>>◌,
  Bytes, bytes,
}
use rust_rpxy.HeaderText.{trim, is_empty, is_ascii_digit, eq_ignore_ascii_case}
use rust_rpxy.ForwardedNode.{digits_value}

-- `negsuc n` is -(n + 1).
pub data ℤ : Type 0 where
  pos negsuc : ℕ → ℤ

pub data BodySizeValue : Type 0 where
  integer : ℤ → BodySizeValue
  string : Bytes → BodySizeValue

abbrev pub u64_mod : ℕ
u64_mod = 18446744073709551616

-- What the letters stand for.
abbrev pub multiplier : ℕ → Option ℕ
multiplier c =
    if c == b'k' || c == b'K'
    then some 1024
    else (if c == b'm' || c == b'M'
        then some 1048576
        else (if c == b'g' || c == b'G' then some 1073741824 else none))

abbrev pub cons_init : ℕ → Option (Bytes × ℕ) → Option (Bytes × ℕ)
cons_init c none = some ([], c)
cons_init c (some (init, last)) = some (c ∷ init, last)

unfoldable pub split_last : Bytes → Option (Bytes × ℕ)
split_last [] = none
split_last (c ∷ s) = cons_init c (split_last s)

unfoldable pub suffixed : Bytes → Bytes → Option ℕ → Bytes × ℕ
suffixed s init none = (s, 1)
suffixed s init (some m) = (trim init, m)

unfoldable pub strip_unit : Bytes → Option (Bytes × ℕ) → Bytes × ℕ
unfolding suffixed
strip_unit s none = (s, 1)
strip_unit s (some (init, last)) = suffixed s init (multiplier last)

-- A number of bytes, or none for zero; a product beyond `u64` is an error.
unfoldable pub scale : ℕ → ℕ → Option (Option ℕ)
scale n m =
    if n == 0 then some none else (if ltb (n * m) u64_mod then some (some (n * m)) else none)

unfoldable pub size_of : Bytes → ℕ → Option (Option ℕ)
unfolding scale
size_of digits m = do
  ensure (not (is_empty digits) && all is_ascii_digit digits)
  ensure (ltb (digits_value 0 digits) u64_mod)
  scale (digits_value 0 digits) m

unfoldable pub size_of_text : Bytes → Option (Option ℕ)
unfolding size_of strip_unit split_last
size_of_text s =
    let (digits, m) = strip_unit s (split_last s) in
    if is_empty s
    then none
    else (if eq_ignore_ascii_case s (bytes "unlimited") then some none else size_of digits m)

unfoldable pub parse_body_size_string : Bytes → Option (Option ℕ)
unfolding size_of_text
parse_body_size_string s = size_of_text (trim s)

unfoldable pub parse_body_size : BodySizeValue → Option (Option ℕ)
unfolding parse_body_size_string
parse_body_size (integer (negsuc n)) = none
parse_body_size (integer (pos n)) = if n == 0 then some none else some (some n)
parse_body_size (string s) = parse_body_size_string s
