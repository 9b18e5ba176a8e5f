-- ===== src/StickySeal.antt =====
-- rpxy-lib/src/backend/load_balance/sticky_cookie_seal.rs: the sealed value of a sticky cookie
-- and the data that its seal covers. The cipher, the base64 coding and the check for UTF-8 are
-- parameters, and the nonce is an argument. Times are seconds from 1970 on. An error is `none`.
pub mod Opening
use rust_rpxy.Common.{
  ℕ, zero, suc, ◌+◌, ◌-◌, ◌*◌, ◌/◌, ◌%◌, ◌≡◌, Bool, true, false, not, ◌&&◌, ◌||◌, Option, none,
  some, List, [], ◌∷◌, ◌++◌, if◌then◌else◌, ◌==◌, ltb, leb, length, take, drop, any, ensure, ◌>>=◌,
  ◌>>◌, Bytes, bytes,
}
use rust_rpxy.HeaderText.{is_empty}

-- `Aes256Gcm` with its key, `URL_SAFE_NO_PAD`, and `String::from_utf8`.
pub record SealCrates : Type 0 where
  pub encrypt : Bytes → Bytes → Bytes → Option Bytes
  pub decrypt : Bytes → Bytes → Bytes → Option Bytes
  pub encode : Bytes → Bytes
  pub decode : Bytes → Option Bytes
  pub from_utf8 : Bytes → Option Bytes

abbrev pub version_v1 : ℕ
version_v1 = 1

abbrev pub nonce_len : ℕ
nonce_len = 12

abbrev pub tag_len : ℕ
tag_len = 16

abbrev pub expires_len : ℕ
expires_len = 8

abbrev pub max_server_id_len : ℕ
max_server_id_len = 256

abbrev pub min_plaintext_len : ℕ
min_plaintext_len = 9

abbrev pub max_plaintext_len : ℕ
max_plaintext_len = 264

abbrev pub min_blob_len : ℕ
min_blob_len = 38

abbrev pub max_blob_len : ℕ
max_blob_len = 293

-- The padding that is left off, for the remainder of the length by three.
abbrev pub padding_of : ℕ → ℕ
padding_of r = if r == 0 then 0 else (if r == 1 then 2 else 1)

unfoldable pub base64_url_no_pad_encoded_len : ℕ → ℕ
base64_url_no_pad_encoded_len raw_len = (raw_len + 2) / 3 * 4 - padding_of (raw_len % 3)

-- `to_be_bytes` with as many bytes.
unfoldable pub be_bytes : ℕ → ℕ → Bytes
be_bytes zero n = []
be_bytes (suc k) n = be_bytes k (n / 256) ++ n % 256 ∷ []

unfoldable pub from_be_bytes : ℕ → Bytes → ℕ
from_be_bytes n [] = n
from_be_bytes n (b ∷ bs) = from_be_bytes (n * 256 + b) bs

unfoldable pub within : ℕ → ℕ → ℕ → Bool
within low high n = leb low n && leb n high

-- An `i64` from its value as a `u64`: whether it is above `now`.
unfoldable pub is_after : ℕ → ℕ → Bool
is_after now n = ltb n 9223372036854775808 && ltb now n

contains_nul : Bytes → Bool
contains_nul value = any (λ b. b == 0) value

-- `validate_sticky_cookie_aad_component`; `true` is `Ok`.
pub validate_sticky_cookie_aad_component : Bytes → Bool
unfolding contains_nul
validate_sticky_cookie_aad_component value = not (contains_nul value)

unfoldable pub build_sticky_cookie_aad : Bytes → Bytes → Bytes → Option Bytes
unfolding validate_sticky_cookie_aad_component
build_sticky_cookie_aad name domain path = do
  ensure (validate_sticky_cookie_aad_component name)
  ensure (validate_sticky_cookie_aad_component domain)
  ensure (validate_sticky_cookie_aad_component path)
  some (bytes "rpxy-sticky-v1" ++ (0 ∷ name) ++ (0 ∷ domain) ++ (0 ∷ path) ++ 0 ∷ [])

module _ (crates : SealCrates) (aad : Bytes) where
  unfoldable pub seal_server_id : Bytes → Bytes → ℕ → Option Bytes
  seal_server_id nonce server_id expires = do
    ensure (not (is_empty server_id || ltb max_server_id_len (length server_id)))
    ct_with_tag ← crates.encrypt nonce aad (be_bytes expires_len expires ++ server_id)
    some (crates.encode (version_v1 ∷ nonce ++ ct_with_tag))

  unfoldable pub open_plaintext : ℕ → Bytes → Option Bytes
  open_plaintext now plaintext = do
    ensure (within min_plaintext_len max_plaintext_len (length plaintext))
    ensure (is_after now (from_be_bytes 0 (take expires_len plaintext)))
    crates.from_utf8 (drop expires_len plaintext)

  unfoldable pub open_blob : ℕ → Bytes → Option Bytes
  unfolding open_plaintext
  open_blob now [] = none
  open_blob now (version ∷ rest) = do
    ensure (version == version_v1)
    plaintext ← crates.decrypt (take nonce_len rest) aad (drop nonce_len rest)
    open_plaintext now plaintext

  -- `open_server_id_at`.
  unfoldable pub open_server_id : Bytes → ℕ → Option Bytes
  unfolding open_blob
  open_server_id blob_b64 now = do
    ensure (
        within (base64_url_no_pad_encoded_len min_blob_len)
          (base64_url_no_pad_encoded_len max_blob_len) (length blob_b64))
    blob ← crates.decode blob_b64
    ensure (within min_blob_len max_blob_len (length blob))
    open_blob now blob
