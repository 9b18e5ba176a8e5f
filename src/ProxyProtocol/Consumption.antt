-- ===== src/ProxyProtocol/Consumption.antt =====
-- What a successful or refused parse does to the stream.
use rust_rpxy.Common.{
  ℕ, ◌+◌, ◌≤◌, ◌≡◌, ◌≢◌, inl, inr, refl, sym, ◌∙◌, subst, Bool, true, false, ◌&&◌, Option, none,
  some, List, [], ◌∷◌, ◌++◌, arith, if◌then◌else◌, leb, ltb, length, Bytes, take, drop, any, leb→le,
  bytes_eq, take-append-drop, length-take, Bool-cases,
}
use rust_rpxy.Net.{IpAddr, SocketAddr}
use rust_rpxy.ProxyProtocol.{
  Outcome, ok, err, ErrorKind, invalid_data, permission_denied, Ppp, V2Header, Addresses, ip, unix,
  unspecified, read_v1, v1_answer, parse_v1_header, parse_v1_inbound, v2_addresses, v2_answer,
  parse_v2_inbound, addr_len_of, peek_loop, dispatch, after_peek, parse_inbound_proxy_header,
  normalize_mapped_ipv4, v1_max_length, v2_max_addr_len, v1_prefix, v2_signature,
}
use rust_rpxy.ProxyProtocol.Lines.{v1_contract, read_v1_lem}

-- The source that a v2 header stands for; none keeps the peer.
pub data V2Source (h : V2Header) : Option SocketAddr → Type 0 where
  local : h.is_local ≡ true → V2Source h none
  proxied : (src : SocketAddr) → h.is_local ≡ false → h.addresses ≡ ip src → V2Source h (some src)
  unknown : h.is_local ≡ false → h.addresses ≡ unspecified → V2Source h none

-- The bytes up to `rest` are one header that the ppp crate accepts, within the format's bound.
pub data Consumed (ppp : Ppp) (stream : Bytes) (src : Option SocketAddr) (rest : Bytes)
    : Type 0 where
  text :
      (header : Bytes)
      → stream ≡ header ++ rest
      → length header ≤ v1_max_length
      → ppp.v1 header ≡ some src
      → Consumed ppp stream src rest
  binary :
      (header : Bytes) (h : V2Header)
      → stream ≡ header ++ rest
      → length header ≤ 16 + v2_max_addr_len
      → ppp.v2 header ≡ some h
      → V2Source h src
      → Consumed ppp stream src rest

refused-ne-ok :
    {A : Type 0} (b : Bool) (k k' : ErrorKind) (r r' rest : Bytes) (a : A)
    → (if b then err k r else err k' r') ≢ ok a rest
refused-ne-ok true k k' r r' rest a e = cc
refused-ne-ok false k k' r r' rest a e = cc

taken-ok :
    (b : Bool) (n : ℕ) (k : ErrorKind) (s r header rest : Bytes)
    → (if b then ok (take n s) (drop n s) else err k r) ≡ ok header rest
    → (b ≡ true) × (header ≡ take n s) × (s ≡ header ++ rest)
taken-ok true n k s r header rest e = ground (arith, take-append-drop n s)
taken-ok false n k s r header rest e = absurd (cc)

contract-ok :
    (s header rest : Bytes) (o : Option ℕ)
    → v1_contract [] o s ≡ ok header rest
    → (s ≡ header ++ rest) × (length header ≤ v1_max_length)
unfolding v1_contract
contract-ok s header rest none e = absurd (refused-ne-ok (ltb (0 + length s) 107) _ _ _ _ _ _ e)
contract-ok s header rest (some n) e =
    let (l, h, a) = taken-ok (leb (0 + n) 107) n invalid_data s _ header rest e in
    (a, rw h (omega (arith, length-take n s, leb→le (0 + n) 107 l)))

v1-Consumed :
    (ppp : Ppp) (s : Bytes) (src : Option SocketAddr) (rest : Bytes)
    → parse_v1_inbound ppp s ≡ ok src rest
    → Consumed ppp s src rest
unfolding parse_v1_inbound
v1-Consumed ppp s src rest e = go (read_v1 [] false s) refl e
  where
    accepted :
        (header r : Bytes) (o : Option (Option SocketAddr))
        → ppp.v1 header ≡ o
        → s ≡ header ++ r
        → length header ≤ v1_max_length
        → v1_answer o r ≡ ok src rest
        → Consumed ppp s src rest
    accepted header r none p a l f = absurd (cc)
    accepted header r (some x) p a l f = text header (ground arith) l (ground arith)

    go :
        (o : Outcome Bytes)
        → read_v1 [] false s ≡ o
        → parse_v1_header ppp o ≡ ok src rest
        → Consumed ppp s src rest
    go (err k r) q f = absurd (cc)
    go (ok header r) q f =
        let (a, l) = contract-ok s header r _ (sym (read_v1_lem s) ∙ q) in
        accepted header r (ppp.v1 header) refl a l f

v2-Consumed :
    (ppp : Ppp) (s peek_buf : Bytes) (src : Option SocketAddr) (rest : Bytes)
    → parse_v2_inbound ppp s peek_buf ≡ ok src rest
    → Consumed ppp s src rest
unfolding parse_v2_inbound
v2-Consumed ppp s peek_buf src rest e = elim (Bool-cases (ltb v2_max_addr_len n)) [
  | inl big ↦ absurd (ground arith)
  | inr fits ↦ elim (Bool-cases (ltb (length s) (16 + n))) [
    | inl short ↦ absurd (ground arith)
    | inr enough ↦
        accepted (ppp.v2 (take (16 + n) s)) refl (ground arith)
          (ground (arith, length-take (16 + n) s))
  ]
]
  where
    n : ℕ
    n = addr_len_of peek_buf

    by_addresses :
        (h : V2Header) (a : Addresses)
        → h.addresses ≡ a
        → ppp.v2 (take (16 + n) s) ≡ some h
        → h.is_local ≡ false
        → v2_addresses a (drop (16 + n) s) ≡ ok src rest
        → length (take (16 + n) s) ≤ 16 + v2_max_addr_len
        → Consumed ppp s src rest
    by_addresses h (ip x) p q l f b =
        binary (take (16 + n) s) h (ground (arith, take-append-drop (16 + n) s)) b q
          (subst (V2Source h) (ground arith) (proxied x l p))
    by_addresses h unix p q l f b = absurd (cc)
    by_addresses h unspecified p q l f b =
        binary (take (16 + n) s) h (ground (arith, take-append-drop (16 + n) s)) b q
          (subst (V2Source h) (ground arith) (unknown l p))

    accepted :
        (o : Option V2Header)
        → ppp.v2 (take (16 + n) s) ≡ o
        → v2_answer o (drop (16 + n) s) ≡ ok src rest
        → length (take (16 + n) s) ≤ 16 + v2_max_addr_len
        → Consumed ppp s src rest
    accepted none p f b = absurd (cc)
    accepted (some h) p f b = elim (Bool-cases h.is_local) [
      | inl l ↦
          binary (take (16 + n) s) h (ground (arith, take-append-drop (16 + n) s)) b p
            (subst (V2Source h) (ground arith) (local l))
      | inr l ↦ by_addresses h h.addresses refl p l (ground arith) b
    ]

peek_loop-stream :
    (s : Bytes) (schedule : List ℕ) (peek_buf r : Bytes)
    → peek_loop s schedule ≡ some (ok peek_buf r)
    → r ≡ s
unfolding peek_loop
peek_loop-stream s [] peek_buf r e = absurd (cc)
peek_loop-stream s (n ∷ schedule) peek_buf r e =
    ground (arith, peek_loop-stream s schedule peek_buf r)

dispatch-Consumed :
    (ppp : Ppp) (s peek_buf : Bytes) (src : Option SocketAddr) (rest : Bytes)
    → dispatch ppp (ok peek_buf s) ≡ ok src rest
    → Consumed ppp s src rest
unfolding dispatch
dispatch-Consumed ppp s peek_buf src rest e =
    elim (Bool-cases (leb 12 (length peek_buf) && bytes_eq (take 12 peek_buf) v2_signature)) [
      | inl b ↦ v2-Consumed ppp s peek_buf src rest (rw b at e)
      | inr n ↦ elim (Bool-cases (bytes_eq (take 6 peek_buf) v1_prefix)) [
        | inl b ↦ v1-Consumed ppp s src rest (rw b at (rw n at e))
        | inr m ↦ absurd (refused (rw m at (rw n at e)))
      ]
    ]
  where
    refused : err invalid_data s ≡ ok src rest → ⊥
    refused f = cc

-- Whatever arrives and when: if a parse succeeds, the peer is a trusted proxy, and what has left the
-- stream is exactly one header that the ppp crate accepts, of at most 107 bytes (v1) or 16 + 2048 bytes
-- (v2), whose source is the answer (the peer's own address stays for LOCAL, UNKNOWN and unspecified).
-- The first byte of the application's data is the next one to be read.
pub parse-Consumed :
    (ppp : Ppp) (trusted : List (IpAddr → Bool)) (peer : SocketAddr) (s : Bytes) (schedule : List ℕ)
    (src : Option SocketAddr) (rest : Bytes)
    → parse_inbound_proxy_header ppp trusted peer s schedule ≡ ok src rest
    → (any (λ contains. contains (normalize_mapped_ipv4 peer.ip)) trusted ≡ true)
      × Consumed ppp s src rest
unfolding parse_inbound_proxy_header
parse-Consumed ppp trusted peer s schedule src rest e =
    elim (Bool-cases (any (λ contains. contains (normalize_mapped_ipv4 peer.ip)) trusted)) [
      | inl t ↦ (t, go (peek_loop s schedule) refl (rw t at e))
      | inr n ↦ absurd (refused (rw n at e))
    ]
  where
    refused : err permission_denied s ≡ ok src rest → ⊥
    refused f = cc

    go :
        (o : Option (Outcome Bytes))
        → peek_loop s schedule ≡ o
        → after_peek ppp s o ≡ ok src rest
        → Consumed ppp s src rest
    go none p f = absurd (cc)
    go (some (err k r)) p f = absurd (cc)
    go (some (ok peek_buf r)) p f = dispatch-Consumed ppp s peek_buf src rest (
        subst (λ x. dispatch ppp (ok peek_buf x) ≡ ok src rest)
          (peek_loop-stream s schedule peek_buf r p) f)
