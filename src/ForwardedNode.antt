-- ===== src/ForwardedNode.antt =====
-- The entries of a forwarding chain, their parser and their writer, from
-- rpxy-lib/src/message_handler/header_ops/forwarding.rs. An error is `none`. Reading and printing of
-- IPv6 text, and the reading of IPv4 text, are those of Rust's std::net and parameters.
use rust_rpxy.Common.{
  ℕ, ◌+◌, ◌-◌, ◌*◌, Bool, false, not, ◌&&◌, ◌||◌, Option, none, some, [], ◌∷◌, if◌then◌else◌, ◌==◌,
  ltb, length, all, count_if, and_then, Bytes, bytes,
}
use rust_rpxy.Net.{IpAddr, canonicalize_ip}
use rust_rpxy.HeaderText.{
  is_empty, strip_prefix, strip_suffix, rsplit_once, eq_ignore_ascii_case, is_ascii_digit,
  is_ascii_alphanumeric, unquote_http_value,
}

-- `IpAddr::from_str` and the `Display` of `Ipv6Addr`.
pub record IpText : Type 0 where
  pub from_str : Bytes → Option IpAddr
  pub show_v6 : ℕ → Bytes

pub data ForwardedPort : Type 0 where
  numeric : ℕ → ForwardedPort
  obfuscated : Bytes → ForwardedPort

pub data ForwardedNodeRaw : Type 0 where
  ip unknown : ForwardedNodeRaw
  obfuscated : Bytes → ForwardedNodeRaw

pub record ForwardedNode : Type 0 where
  pub ip : Option IpAddr
  pub port : Option ForwardedPort
  pub raw : ForwardedNodeRaw

pub record ForwardedEntry : Type 0 where
  pub for_node : ForwardedNode
  pub proto : Option Bytes
  pub host : Option Bytes
  pub by : Option Bytes

id_byte : ℕ → Bool
id_byte b = is_ascii_alphanumeric b || b == 46 || b == 95 || b == 45

obfuscated_rest : Option Bytes → Bool
unfolding id_byte
obfuscated_rest none = false
obfuscated_rest (some rest) = not (is_empty rest) && all id_byte rest

-- `is_obfnode` and `is_obfport` are this function.
unfoldable pub is_forwarded_obfuscated_id : Bytes → Bool
unfolding obfuscated_rest
is_forwarded_obfuscated_id s = obfuscated_rest (strip_prefix 95 s)

starts_with_char : ℕ → Bytes → Bool
starts_with_char p [] = false
starts_with_char p (c ∷ s) = c == p

-- The value of a run of digits.
pub digits_value : ℕ → Bytes → ℕ
digits_value n [] = n
digits_value n (c ∷ s) = digits_value (n * 10 + (c - 48)) s

-- `str::parse::<u16>` of digits.
parse_u16 : Bytes → Option ForwardedPort
unfolding digits_value
parse_u16 port =
    if ltb (digits_value 0 port) 65536 then some (numeric (digits_value 0 port)) else none

pub parse_forwarded_port : Bytes → Option ForwardedPort
unfolding is_forwarded_obfuscated_id starts_with_char parse_u16
parse_forwarded_port port =
    if starts_with_char 95 port
    then (if is_forwarded_obfuscated_id port then some (obfuscated port) else none)
    else (if is_empty port || ltb 5 (length port) || not (all is_ascii_digit port)
        then none
        else parse_u16 port)

with_port : Option IpAddr → ForwardedNodeRaw → Option ForwardedPort → Option ForwardedNode
with_port addr raw none = none
with_port addr raw (some port) = some (record { ip = addr; port = some port; raw = raw })

without_port : Option IpAddr → ForwardedNodeRaw → ForwardedNode
without_port addr raw = record { ip = addr; port = none; raw = raw }

strip_brackets : Bytes → Option Bytes
strip_brackets s = and_then (strip_prefix 91 s) (strip_suffix 93)

-- The text in brackets and the port after them.
bracketed_port : Bytes → Option (Bytes × Bytes)
unfolding strip_brackets starts_with_char
bracketed_port trimmed =
    if starts_with_char 91 trimmed
    then and_then (rsplit_once 58 trimmed)
        (λ (node, port). and_then (strip_brackets node) (λ inner. some (inner, port)))
    else none

ip_alone : IpText → Bytes → Option ForwardedNode
unfolding without_port
ip_alone text s =
    and_then (text.from_str s) (λ addr. some (without_port (some (canonicalize_ip addr)) ip))

bare_node : IpText → Bytes → Option Bytes → Option ForwardedNode
unfolding ip_alone starts_with_char
bare_node text trimmed (some inner) = ip_alone text inner
bare_node text trimmed none =
    if is_forwarded_obfuscated_id trimmed
    then some (without_port none (obfuscated trimmed))
    else (if starts_with_char 95 trimmed then none else ip_alone text trimmed)

-- The branches after those of a node with a port.
last_forms : IpText → Bytes → Option ForwardedNode
unfolding bare_node strip_brackets
last_forms text trimmed = bare_node text trimmed (strip_brackets trimmed)

colon_ip : IpText → Bytes → Bytes → Option IpAddr → Option ForwardedNode
unfolding last_forms with_port
colon_ip text trimmed port none = last_forms text trimmed
colon_ip text trimmed port (some addr) =
    with_port (some (canonicalize_ip addr)) ip (parse_forwarded_port port)

one_colon : IpText → Bytes → Option (Bytes × Bytes) → Option ForwardedNode
unfolding colon_ip
one_colon text trimmed none = last_forms text trimmed
one_colon text trimmed (some (node, port)) =
    if eq_ignore_ascii_case node (bytes "unknown")
    then with_port none unknown (parse_forwarded_port port)
    else (if is_forwarded_obfuscated_id node
        then with_port none (obfuscated node) (parse_forwarded_port port)
        else (if starts_with_char 95 node
            then none
            else colon_ip text trimmed port (text.from_str node)))

node_forms : IpText → Bytes → Option (Bytes × Bytes) → Option ForwardedNode
unfolding one_colon
node_forms text trimmed (some (inner, port)) =
    and_then (text.from_str inner)
      (λ addr. with_port (some (canonicalize_ip addr)) ip (parse_forwarded_port port))
node_forms text trimmed none =
    if count_if (λ c. c == 58) trimmed == 1
    then one_colon text trimmed (rsplit_once 58 trimmed)
    else last_forms text trimmed

pub parse_unquoted : IpText → Bytes → Option ForwardedNode
unfolding node_forms bracketed_port
parse_unquoted text trimmed =
    if eq_ignore_ascii_case trimmed (bytes "unknown")
    then some (without_port none unknown)
    else node_forms text trimmed (bracketed_port trimmed)

pub parse_forwarded_node : IpText → Bytes → Option ForwardedNode
unfolding parse_unquoted
parse_forwarded_node text token = and_then (unquote_http_value token) (parse_unquoted text)

unfoldable pub parse_forwarded_ip_token : IpText → Bytes → Option IpAddr
unfolding parse_forwarded_node
parse_forwarded_ip_token text token = and_then (parse_forwarded_node text token) (λ node. node.ip)
