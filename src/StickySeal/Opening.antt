-- ===== src/StickySeal/Opening.antt =====
-- A sealed cookie value opens to what was sealed, until it expires.
use rust_rpxy.Common.{
  ℕ, zero, suc, ◌+◌, ◌*◌, ◌/◌, ◌%◌, ◌≡◌, ◌≤◌, ◌<◌, refl, ap, subst, ◌∙◌, Bool, true, false, not,
  ◌||◌, Option, none, some, [], ◌∷◌, ◌++◌, if◌then◌else◌, ltb, length, take, drop, arith, ensure,
  ensure-some, bind_some, some_inj, ◌>>◌, Bytes, length-append, lt→ltb,
}
use rust_rpxy.HeaderText.{is_empty}
use rust_rpxy.StickySeal.{
  SealCrates, version_v1, nonce_len, tag_len, expires_len, max_server_id_len, min_blob_len,
  max_blob_len, base64_url_no_pad_encoded_len, be_bytes, from_be_bytes, within, is_after,
  seal_server_id, open_plaintext, open_blob, open_server_id,
}

-- What the code relies on: the cipher gives back what it encrypted and adds a tag of sixteen bytes, and the
-- coding gives back what it coded, in a text of the known length.
pub record SealLaws (crates : SealCrates) : Type 0 where
  pub decrypts :
      (nonce aad msg ct : Bytes)
      → crates.encrypt nonce aad msg ≡ some ct
      → crates.decrypt nonce aad ct ≡ some msg
  pub tagged :
      (nonce aad msg ct : Bytes)
      → crates.encrypt nonce aad msg ≡ some ct
      → length ct ≡ length msg + tag_len
  pub decodes : (b : Bytes) → crates.decode (crates.encode b) ≡ some b
  pub coded_length :
      (b : Bytes) → length (crates.encode b) ≡ base64_url_no_pad_encoded_len (length b)

take-append : (xs ys : Bytes) → take (length xs) (xs ++ ys) ≡ xs
take-append [] ys = refl
take-append (x ∷ xs) ys = ap (◌∷◌ x) (take-append xs ys)

drop-append : (xs ys : Bytes) → drop (length xs) (xs ++ ys) ≡ ys
drop-append [] ys = refl
drop-append (x ∷ xs) ys = drop-append xs ys

length-be_bytes : (k n : ℕ) → length (be_bytes k n) ≡ k
unfolding be_bytes
length-be_bytes zero n = refl
length-be_bytes (suc k) n =
    length-append (be_bytes k (n / 256)) (n % 256 ∷ []) ∙ omega (arith, length-be_bytes k (n / 256))

from-append :
    (n : ℕ) (xs : Bytes) (b : ℕ) → from_be_bytes n (xs ++ b ∷ []) ≡ from_be_bytes n xs * 256 + b
unfolding from_be_bytes
from-append n [] b = refl
from-append n (x ∷ xs) b = from-append (n * 256 + x) xs b

abbrev pow256 : ℕ → ℕ
pow256 zero = 1
pow256 (suc k) = 256 * pow256 k

from-be_bytes : (k n : ℕ) → n < pow256 k → from_be_bytes 0 (be_bytes k n) ≡ n
unfolding be_bytes from_be_bytes
from-be_bytes zero n h = omega arith
from-be_bytes (suc k) n h =
    from-append 0 (be_bytes k (n / 256)) (n % 256)
    ∙ omega (arith, from-be_bytes k (n / 256) (omega arith))

encoded_len_within :
    (n : ℕ)
    → within min_blob_len max_blob_len n ≡ true
    → within
        (base64_url_no_pad_encoded_len min_blob_len)
        (base64_url_no_pad_encoded_len max_blob_len)
        (base64_url_no_pad_encoded_len n)
      ≡ true
unfolding within base64_url_no_pad_encoded_len
encoded_len_within n h = ground arith

pub take_exact : (n : ℕ) (xs ys : Bytes) → length xs ≡ n → take n (xs ++ ys) ≡ xs
take_exact n xs ys e = subst (λ k. take k (xs ++ ys) ≡ xs) e (take-append xs ys)

drop_exact : (n : ℕ) (xs ys : Bytes) → length xs ≡ n → drop n (xs ++ ys) ≡ ys
drop_exact n xs ys e = subst (λ k. drop k (xs ++ ys) ≡ ys) e (drop-append xs ys)

id_length :
    (s : Bytes)
    → not (is_empty s || ltb max_server_id_len (length s)) ≡ true
    → (1 ≤ length s) × (length s ≤ 256)
id_length [] h = absurd (cc)
id_length (c ∷ s) h = (omega arith, ground arith)

within_bounds : (low high n : ℕ) → low ≤ n → n ≤ high → within low high n ≡ true
unfolding within
within_bounds low high n a b = ground arith

is_after-ltb : (now n : ℕ) → n < 9223372036854775808 → is_after now n ≡ ltb now n
unfolding is_after
is_after-ltb now n h = rw (lt→ltb n 9223372036854775808 h) refl

when :
    (b : Bool) (m : Option Bytes) (id : Bytes)
    → m ≡ some id
    → ensure b >> m ≡ (if b then some id else none)
when true m id e = e
when false m id e = refl

module _ (crates : SealCrates) (laws : SealLaws crates) (aad : Bytes) where
  opened_plaintext :
      (id : Bytes) (expires now : ℕ)
      → 1 ≤ length id
      → length id ≤ 256
      → expires < 9223372036854775808
      → crates.from_utf8 id ≡ some id
      → open_plaintext crates aad now (be_bytes expires_len expires ++ id)
        ≡ (if ltb now expires then some id else none)
  unfolding open_plaintext
  opened_plaintext id expires now low high fits text =
      let e = be_bytes expires_len expires in
      let n = length-be_bytes expires_len expires in
      rw
        (
          length-append e id,
          n,
          within_bounds 9 264 (8 + length id) (omega arith) (omega arith),
          take_exact expires_len e id n,
          drop_exact expires_len e id n,
          from-be_bytes expires_len expires (omega arith),
          is_after-ltb now expires fits,
        )
        (when (ltb now expires) (crates.from_utf8 id) id text)

  opened_blob :
      (nonce id ct : Bytes) (expires now : ℕ)
      → length nonce ≡ nonce_len
      → 1 ≤ length id
      → length id ≤ 256
      → expires < 9223372036854775808
      → crates.from_utf8 id ≡ some id
      → crates.encrypt nonce aad (be_bytes expires_len expires ++ id) ≡ some ct
      → open_blob crates aad now (version_v1 ∷ nonce ++ ct)
        ≡ (if ltb now expires then some id else none)
  unfolding open_blob
  opened_blob nonce id ct expires now l low high fits text e =
      rw
        (
          take_exact nonce_len nonce ct l,
          drop_exact nonce_len nonce ct l,
          laws.decrypts nonce aad (be_bytes expires_len expires ++ id) ct e,
        )
        (opened_plaintext id expires now low high fits text)

  -- A value that was sealed with a nonce of the right length opens, under the same data, to what was sealed
  -- as long as it has not expired, and to nothing from then on.
  pub open-seal_server_id :
      (nonce id : Bytes) (expires now : ℕ) (blob : Bytes)
      → length nonce ≡ nonce_len
      → expires < 9223372036854775808
      → crates.from_utf8 id ≡ some id
      → seal_server_id crates aad nonce id expires ≡ some blob
      → open_server_id crates aad blob now ≡ (if ltb now expires then some id else none)
  unfolding open_server_id seal_server_id
  open-seal_server_id nonce id expires now blob l fits text e =
      let msg = be_bytes expires_len expires ++ id in
      let (c, e1) = ensure-some (not (is_empty id || ltb max_server_id_len (length id))) _ blob e in
      let (low, high) = id_length id c in
      let (ct, p, e2) = bind_some (crates.encrypt nonce aad msg) _ blob e1 in
      let b = version_v1 ∷ nonce ++ ct in
      let n = length-append nonce ct in
      let t = laws.tagged nonce aad msg ct p in
      let m = length-append (be_bytes expires_len expires) id in
      let k = length-be_bytes expires_len expires in
      let inside = within_bounds min_blob_len max_blob_len (length b) (omega arith) (omega arith) in
      subst (λ x. open_server_id crates aad x now ≡ (if ltb now expires then some id else none))
        (some_inj e2)
        (rw (laws.coded_length b, encoded_len_within (length b) inside, laws.decodes b, inside)
          (opened_blob nonce id ct expires now l low high fits text p))
