-- ===== src/Examples/Sealing.antt =====
-- A sealed sticky cookie at a concrete cipher:
-- rpxy-lib/src/backend/load_balance/sticky_cookie_seal.rs. The cipher adds zeros, and the coding
-- pads with them and shifts each number.
use rust_rpxy.Common.{
  ℕ, true, zero, suc, ◌+◌, ◌-◌, ◌*◌, ◌/◌, ◌≡◌, ◌∙◌, ◌≤◌, refl, sym, ap, subst, none, some, [], ◌∷◌,
  ◌++◌, if◌then◌else◌, ltb, length, take, arith, some_inj, unwrap_or, length-append, Bytes, bytes,
}
use rust_rpxy.HeaderText.Splitting.{is_free, no_whitespace}
use rust_rpxy.StickyHeaders.Returning.{CodingLaws}
use rust_rpxy.StickySeal.{SealCrates, base64_url_no_pad_encoded_len, seal_server_id, open_server_id}
use rust_rpxy.StickySeal.Opening.{SealLaws, take_exact, open-seal_server_id}

abbrev zeros : ℕ → Bytes
zeros zero = []
zeros (suc n) = 0 ∷ zeros n

length-zeros : (n : ℕ) → length (zeros n) ≡ n
length-zeros zero = refl
length-zeros (suc n) = ap suc (length-zeros n)

abbrev pad : Bytes → Bytes
pad b = b ++ zeros (base64_url_no_pad_encoded_len (length b) - length b)

abbrev shift : Bytes → Bytes
shift [] = []
shift (c ∷ s) = (c + 100) ∷ shift s

abbrev unshift : Bytes → Bytes
unshift [] = []
unshift (c ∷ s) = (c - 100) ∷ unshift s

unshift-shift : (s : Bytes) → unshift (shift s) ≡ s
unshift-shift [] = refl
unshift-shift (c ∷ s) = ground (arith, unshift-shift s)

length-shift : (s : Bytes) → length (shift s) ≡ length s
length-shift [] = refl
length-shift (c ∷ s) = ap suc (length-shift s)

shift_no_semicolon : (s : Bytes) → is_free 59 (shift s) ≡ true
shift_no_semicolon [] = refl
shift_no_semicolon (c ∷ s) = ground (arith, shift_no_semicolon s)

shift_no_space : (s : Bytes) → no_whitespace (shift s) ≡ true
shift_no_space [] = refl
shift_no_space (c ∷ s) = ground (arith, shift_no_space s)

abbrev pub plain : SealCrates
plain = record {
  encrypt = λ nonce aad msg. some (msg ++ zeros 16);
  decrypt = λ nonce aad ct. some (take (length ct - 16) ct);
  encode = λ b. shift (pad b);
  decode = λ s. some (take (length s * 3 / 4) (unshift s));
  from_utf8 = λ s. some s;
}

coded_le : (n : ℕ) → n ≤ base64_url_no_pad_encoded_len n
unfolding base64_url_no_pad_encoded_len
coded_le n = ground arith

coded_back : (n : ℕ) → base64_url_no_pad_encoded_len n * 3 / 4 ≡ n
unfolding base64_url_no_pad_encoded_len
coded_back n = ground arith

length-pad : (b : Bytes) → length (pad b) ≡ base64_url_no_pad_encoded_len (length b)
length-pad b =
    let z = zeros (base64_url_no_pad_encoded_len (length b) - length b) in
    length-append b z
    ∙ omega (
      arith,
      length-zeros (base64_url_no_pad_encoded_len (length b) - length b),
      coded_le (length b),
    )

decrypted : (msg : Bytes) → take (length (msg ++ zeros 16) - 16) (msg ++ zeros 16) ≡ msg
decrypted msg =
    take_exact (length (msg ++ zeros 16) - 16) msg (zeros 16)
      (omega (arith, length-append msg (zeros 16)))

decoded : (b : Bytes) → take (length (shift (pad b)) * 3 / 4) (unshift (shift (pad b))) ≡ b
decoded b =
    rw (length-shift (pad b), unshift-shift (pad b))
      (take_exact (length (pad b) * 3 / 4) b _
        (sym (ap (λ n. n * 3 / 4) (length-pad b) ∙ coded_back (length b))))

pub plain_laws : SealLaws plain
plain_laws = record {
  decrypts = λ nonce aad msg ct e.
      subst (λ c. some (take (length c - 16) c) ≡ some msg) (some_inj e) (ap some (decrypted msg));
  tagged = λ nonce aad msg ct e.
      subst (λ c. length c ≡ length msg + 16) (some_inj e) (length-append msg (zeros 16));
  decodes = λ b. ap some (decoded b);
  coded_length = λ b. length-shift (pad b) ∙ length-pad b;
}

pub plain_coding : CodingLaws plain
plain_coding = record {
  no_semicolon = λ b. shift_no_semicolon (pad b);
  no_space = λ b. shift_no_space (pad b);
}

abbrev pub nonce : Bytes
nonce = bytes "0123456789ab"

abbrev sealed : Bytes
sealed = unwrap_or (seal_server_id plain [] nonce (bytes "id0") 1700000000) []

seals : seal_server_id plain [] nonce (bytes "id0") 1700000000 ≡ some sealed
unfolding seal_server_id
seals = refl

open-seal_server_id_example :
    open_server_id plain [] sealed 1600000000
    ≡ (if ltb 1600000000 1700000000 then some (bytes "id0") else none)
open-seal_server_id_example =
    open-seal_server_id plain plain_laws [] nonce (bytes "id0") 1700000000 1600000000 sealed refl
      (omega arith) refl seals
