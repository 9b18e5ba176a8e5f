-- ===== src/ProxyProtocol.antt =====
-- rpxy-lib/src/proxy/proxy_protocol.rs, and its timeout in rpxy-lib/src/proxy/proxy_main.rs. A stream
-- is the list of bytes that the peer sends before it closes; how many of them have arrived at each
-- peek is a schedule. A stall during the reads after the peeks ends in the timeout's error and is not
-- told apart from the end of the stream. The parsers of the ppp crate and `IpNet::contains` are parameters.
pub mod Lines
pub mod Consumption
use rust_rpxy.Common.{
  ℕ, zero, suc, ◌+◌, ◌*◌, ◌≡◌, Bool, true, false, not, ◌&&◌, ◌||◌, Option, none, some, List, [],
  ◌∷◌, ◌++◌, min, if◌then◌else◌, ◌==◌, ltb, leb, length, take, drop, any, get_elem?, unwrap_or,
  Bytes, bytes, bytes_eq,
}
use rust_rpxy.Net.{IpAddr, v4, v6, SocketAddr, to_ipv4_mapped}

pub data ErrorKind : Type 0 where
  permission_denied unexpected_eof invalid_data unsupported timed_out : ErrorKind

-- The bytes that stay in the stream go with every answer.
pub data Outcome {ℓ} (A : Type ℓ) : Type ℓ where
  ok : A → Bytes → Outcome A
  err : ErrorKind → Bytes → Outcome A

abbrev pub v2_signature : Bytes
v2_signature = 13 ∷ 10 ∷ 13 ∷ 10 ∷ 0 ∷ 13 ∷ 10 ∷ 81 ∷ 85 ∷ 73 ∷ 84 ∷ 10 ∷ []

abbrev pub v2_header_fixed_size : ℕ
v2_header_fixed_size = 16

abbrev pub v1_prefix : Bytes
v1_prefix = bytes "PROXY "

abbrev pub v1_max_length : ℕ
v1_max_length = 107

abbrev pub v2_max_addr_len : ℕ
v2_max_addr_len = 2048

-- What the ppp crate makes of a header.
pub data Addresses : Type 0 where
  ip : SocketAddr → Addresses
  unix unspecified : Addresses

pub record V2Header : Type 0 where
  pub is_local : Bool
  pub addresses : Addresses

-- A v1 header names a source, or is `UNKNOWN`.
pub record Ppp : Type 0 where
  pub v1 : Bytes → Option (Option SocketAddr)
  pub v2 : Bytes → Option V2Header

normalize_v6 : ℕ → Option ℕ → IpAddr
normalize_v6 a none = v6 a
normalize_v6 a (some m) = v4 m

pub normalize_mapped_ipv4 : IpAddr → IpAddr
unfolding normalize_v6
normalize_mapped_ipv4 (v4 a) = v4 a
normalize_mapped_ipv4 (v6 a) = normalize_v6 a (to_ipv4_mapped a)

v1_answer : Option (Option SocketAddr) → Bytes → Outcome (Option SocketAddr)
v1_answer none rest = err invalid_data rest
v1_answer (some src) rest = ok src rest

-- The loop of `parse_v1_inbound`: `header` holds the bytes read so far. `read_exact` at the end of the
-- stream is `UnexpectedEof`.
pub read_v1 : Bytes → Bool → Bytes → Outcome Bytes
read_v1 header found_cr [] = err unexpected_eof []
read_v1 header found_cr (byte ∷ stream) =
    let header' = header ++ byte ∷ [] in
    let rest = read_v1 header' (byte == 13) stream in
    if found_cr && byte == 10
    then ok header' stream
    else (if leb v1_max_length (length header') then err invalid_data stream else rest)

parse_v1_header : Ppp → Outcome Bytes → Outcome (Option SocketAddr)
unfolding v1_answer
parse_v1_header ppp (err e rest) = err e rest
parse_v1_header ppp (ok header rest) = v1_answer (ppp.v1 header) rest

pub parse_v1_inbound : Ppp → Bytes → Outcome (Option SocketAddr)
unfolding read_v1 parse_v1_header
parse_v1_inbound ppp stream = parse_v1_header ppp (read_v1 [] false stream)

v2_addresses : Addresses → Bytes → Outcome (Option SocketAddr)
v2_addresses (ip src) rest = ok (some src) rest
v2_addresses unix rest = err unsupported rest
v2_addresses unspecified rest = ok none rest

v2_answer : Option V2Header → Bytes → Outcome (Option SocketAddr)
unfolding v2_addresses
v2_answer none rest = err invalid_data rest
v2_answer (some h) rest = if h.is_local then ok none rest else v2_addresses h.addresses rest

-- `u16::from_be_bytes` of bytes 14 and 15.
pub addr_len_of : Bytes → ℕ
addr_len_of peek_buf =
    unwrap_or (get_elem? peek_buf 14) 0 * 256 + unwrap_or (get_elem? peek_buf 15) 0

pub parse_v2_inbound : Ppp → Bytes → Bytes → Outcome (Option SocketAddr)
unfolding v2_answer addr_len_of
parse_v2_inbound ppp stream peek_buf =
    let addr_len = addr_len_of peek_buf in
    let total_len = v2_header_fixed_size + addr_len in
    if ltb v2_max_addr_len addr_len
    then err invalid_data stream
    else (if ltb (length stream) total_len
        then err unexpected_eof []
        else v2_answer (ppp.v2 (take total_len stream)) (drop total_len stream))

-- The peek loop. A peek waits for a byte or the end of the stream; an entry of the schedule says how
-- many bytes beyond the first have arrived then, and a peek sees at most 16. `none` is a loop that the
-- schedule's end, the timeout around the call, cuts off.
peek_loop : Bytes → List ℕ → Option (Outcome Bytes)
peek_loop stream [] = none
peek_loop stream (arrived ∷ schedule) =
    let peek_buf = take (min (suc arrived) v2_header_fixed_size) stream in
    let again = peek_loop stream schedule in
    if length peek_buf == 0
    then some (err unexpected_eof stream)
    else (if leb v2_header_fixed_size (length peek_buf)
        then some (ok peek_buf stream)
        else (if leb 6 (length peek_buf) && bytes_eq (take 6 peek_buf) v1_prefix
            then some (ok peek_buf stream)
            else again))

dispatch : Ppp → Outcome Bytes → Outcome (Option SocketAddr)
unfolding parse_v1_inbound parse_v2_inbound
dispatch ppp (err e stream) = err e stream
dispatch ppp (ok peek_buf stream) =
    if leb 12 (length peek_buf) && bytes_eq (take 12 peek_buf) v2_signature
    then parse_v2_inbound ppp stream peek_buf
    else (if bytes_eq (take 6 peek_buf) v1_prefix
        then parse_v1_inbound ppp stream
        else err invalid_data stream)

after_peek : Ppp → Bytes → Option (Outcome Bytes) → Outcome (Option SocketAddr)
unfolding dispatch
after_peek ppp stream none = err timed_out stream
after_peek ppp stream (some peeked) = dispatch ppp peeked

-- `parse_inbound_proxy_header` under the timeout; `trusted` is `IpNet::contains` of the configured
-- networks.
unfoldable pub parse_inbound_proxy_header :
    Ppp → List (IpAddr → Bool) → SocketAddr → Bytes → List ℕ → Outcome (Option SocketAddr)
unfolding after_peek peek_loop normalize_mapped_ipv4
parse_inbound_proxy_header ppp trusted_proxies peer stream schedule =
    if not (any (λ contains. contains (normalize_mapped_ipv4 peer.ip)) trusted_proxies)
    then err permission_denied stream
    else after_peek ppp stream (peek_loop stream schedule)

abbrev or_peer : SocketAddr → Outcome (Option SocketAddr) → Outcome SocketAddr
or_peer peer (ok src rest) = ok (unwrap_or src peer) rest
or_peer peer (err e rest) = err e rest

-- `extract_parse_result_from_proxy_protocol_header`: the address that the connection is served under.
pub extract_parse_result :
    Ppp → List (IpAddr → Bool) → SocketAddr → Bytes → List ℕ → Outcome SocketAddr
extract_parse_result ppp trusted peer stream schedule =
    or_peer peer (parse_inbound_proxy_header ppp trusted peer stream schedule)
