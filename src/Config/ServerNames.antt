-- ===== src/Config/ServerNames.antt =====
-- `validate_server_name` of rpxy-bin/src/config/toml.rs.
use rust_rpxy.Common.{ℕ, Bool, false, not, ◌&&◌, ◌||◌, [], ◌∷◌, ◌==◌, ltb, all, length, Bytes}
use rust_rpxy.HeaderText.{is_empty, split, is_ascii_alphanumeric}

abbrev pub label_byte : ℕ → Bool
label_byte b = is_ascii_alphanumeric b || b == b'-'

abbrev pub first_is_alphanumeric : Bytes → Bool
first_is_alphanumeric [] = false
first_is_alphanumeric (c ∷ s) = is_ascii_alphanumeric c

abbrev pub last_is_alphanumeric : Bytes → Bool
last_is_alphanumeric [] = false
last_is_alphanumeric (c ∷ []) = is_ascii_alphanumeric c
last_is_alphanumeric (c ∷ d ∷ s) = last_is_alphanumeric (d ∷ s)

abbrev pub is_label : Bytes → Bool
is_label label =
    not (is_empty label || ltb 63 (length label))
    && (first_is_alphanumeric label && last_is_alphanumeric label)
    && all label_byte label

-- `true` is `Ok`.
unfoldable pub validate_server_name : Bytes → Bool
validate_server_name server_name =
    not (is_empty server_name || ltb 253 (length server_name))
    && all (λ b. ltb b 128) server_name
    && all is_label (split b'.' server_name)
