-- ===== src/ForwardedEntry.antt =====
-- One entry of the `Forwarded` header read and printed, and the values of the outgoing chain, from
-- rpxy-lib/src/message_handler/header_ops/forwarding.rs.
pub mod XForwardedFor
use rust_rpxy.Common.{
  ℕ, zero, suc, ◌+◌, ◌-◌, ◌*◌, ◌/◌, ◌%◌, ◌≡◌, Bool, true, false, not, ◌&&◌, ◌||◌, Option, none,
  some, List, [], ◌∷◌, ◌++◌, if◌then◌else◌, ◌==◌, ltb, leb, length, all, count_if, is_some,
  and_then, Bytes, bytes, bytes_eq, to_ascii_lowercase,
}
use rust_rpxy.Net.{IpAddr, v4, v6, canonicalize_ip}
use rust_rpxy.HeaderText.{
  quote, is_empty, trim, split_once, split_respecting_quotes, unquote_http_value,
  write_forwarded_param_value,
}
use rust_rpxy.ForwardedNode.{
  IpText, ForwardedPort, numeric, obfuscated, ForwardedNodeRaw, ip, unknown, ForwardedNode,
  ForwardedEntry, parse_forwarded_node,
}

-- What the loop over an entry's parameters has seen.
record Params : Type 0 where
  for_node : Option ForwardedNode
  proto : Option Bytes
  host : Option Bytes
  by : Option Bytes

abbrev no_params : Params
no_params = record { for_node = none; proto = none; host = none; by = none }

-- A parameter that stands twice in an entry is an error.
set_for : Params → Option ForwardedNode → Option Params
set_for p value =
    if is_some p.for_node
    then none
    else and_then value
        (λ v. some (record { for_node = some v; proto = p.proto; host = p.host; by = p.by }))

set_proto : Params → Option Bytes → Option Params
set_proto p value =
    if is_some p.proto
    then none
    else and_then value
        (λ v. some (record { for_node = p.for_node; proto = some v; host = p.host; by = p.by }))

set_host : Params → Option Bytes → Option Params
set_host p value =
    if is_some p.host
    then none
    else and_then value
        (λ v. some (record { for_node = p.for_node; proto = p.proto; host = some v; by = p.by }))

set_by : Params → Option Bytes → Option Params
set_by p value =
    if is_some p.by
    then none
    else and_then value
        (λ v. some (record { for_node = p.for_node; proto = p.proto; host = p.host; by = some v }))

set_param : IpText → Params → Bytes → Bytes → Option Params
unfolding set_for set_proto set_host set_by
set_param text p key value =
    if bytes_eq key (bytes "for")
    then set_for p (parse_forwarded_node text value)
    else (if bytes_eq key (bytes "proto")
        then set_proto p (unquote_http_value value)
        else (if bytes_eq key (bytes "host")
            then set_host p (unquote_http_value value)
            else (if bytes_eq key (bytes "by")
                then set_by p (unquote_http_value value)
                else some p)))

add_param : IpText → Params → Option (Bytes × Bytes) → Option Params
unfolding set_param
add_param text p none = some p
add_param text p (some (key, value)) = set_param text p (to_ascii_lowercase (trim key)) (trim value)

read_params : IpText → Params → List Bytes → Option Params
unfolding add_param
read_params text p [] = some p
read_params text p (param ∷ rest) =
    let next = if is_empty param then some p else add_param text p (split_once 61 param) in
    and_then next (λ p'. read_params text p' rest)

entry_of : Params → Option ForwardedEntry
entry_of p =
    and_then p.for_node
      (λ node. some (record { for_node = node; proto = p.proto; host = p.host; by = p.by }))

pub parse_forwarded_header_entry : IpText → Bytes → Option ForwardedEntry
unfolding read_params entry_of
parse_forwarded_header_entry text entry =
    and_then (read_params text no_params (split_respecting_quotes entry 59)) entry_of

-- The digits of a number below 10 ^ fuel, which `itoa` and `Display` print.
pub decimal_from : ℕ → ℕ → Bytes → Bytes
decimal_from zero n s = s
decimal_from (suc fuel) n s =
    let rest = decimal_from fuel (n / 10) ((48 + n % 10) ∷ s) in
    if ltb n 10 then (48 + n) ∷ s else rest

-- A port has at most five digits.
unfoldable pub decimal : ℕ → Bytes
unfolding decimal_from
decimal n = decimal_from 5 n []

unfoldable pub push_ipv4 : Bytes → ℕ → Bytes
unfolding decimal
push_ipv4 out a =
    out
    ++ decimal (a / 16777216 % 256)
    ++ 46 ∷ decimal (a / 65536 % 256)
    ++ 46 ∷ decimal (a / 256 % 256)
    ++ 46 ∷ decimal (a % 256)

unfoldable pub push_ip_addr : IpText → Bytes → IpAddr → Bytes
unfolding push_ipv4
push_ip_addr text out (v4 a) = push_ipv4 out a
push_ip_addr text out (v6 a) = out ++ text.show_v6 a

pub push_forwarded_port : Bytes → ForwardedPort → Bytes
unfolding decimal
push_forwarded_port out (numeric p) = out ++ decimal p
push_forwarded_port out (obfuscated s) = out ++ s

write_node : IpText → Bytes → ForwardedNodeRaw → Option IpAddr → Option ForwardedPort → Option Bytes
unfolding push_ipv4 push_forwarded_port
write_node text out ip (some (v4 a)) none = some (push_ipv4 out a)
write_node text out ip (some (v4 a)) (some p) =
    some (push_forwarded_port (push_ipv4 (out ++ quote ∷ []) a ++ 58 ∷ []) p ++ quote ∷ [])
write_node text out ip (some (v6 a)) none =
    some (out ++ quote ∷ 91 ∷ text.show_v6 a ++ 93 ∷ quote ∷ [])
write_node text out ip (some (v6 a)) (some p) =
    some (push_forwarded_port (out ++ quote ∷ 91 ∷ text.show_v6 a ++ 93 ∷ 58 ∷ []) p ++ quote ∷ [])
write_node text out ip none port = none
write_node text out unknown none none = some (out ++ bytes "unknown")
write_node text out unknown none (some p) =
    some (push_forwarded_port (out ++ quote ∷ bytes "unknown:") p ++ quote ∷ [])
write_node text out unknown (some a) port = none
write_node text out (obfuscated node) none none = some (out ++ node)
write_node text out (obfuscated node) none (some p) =
    some (push_forwarded_port (out ++ quote ∷ node ++ 58 ∷ []) p ++ quote ∷ [])
write_node text out (obfuscated node) (some a) port = none

pub write_forwarded_node : IpText → Bytes → ForwardedNode → Option Bytes
unfolding write_node
write_forwarded_node text out node = write_node text out node.raw node.ip node.port

write_param : Bytes → Option Bytes → Bytes → Bytes
write_param name none out = out
write_param name (some value) out = write_forwarded_param_value (out ++ name) value

-- The loop of `generate_forwarded_header`; `idx` is positive from the second hop on.
pub write_hops : IpText → ℕ → Bytes → List ForwardedEntry → Option Bytes
unfolding write_param write_forwarded_node
write_hops text idx out [] = some out
write_hops text idx out (entry ∷ chain) =
    let separated = if idx == 0 then out else out ++ bytes ", " in
    and_then (write_forwarded_node text (separated ++ bytes "for=") entry.for_node) (λ out'.
      write_hops text (suc idx)
        (write_param (bytes ";by=") entry.by (
          write_param (bytes ";host=") entry.host (write_param (bytes ";proto=") entry.proto out')))
        chain)

pub generate_forwarded_header : IpText → List ForwardedEntry → Option Bytes
unfolding write_hops
generate_forwarded_header text [] = none
generate_forwarded_header text (entry ∷ chain) = write_hops text 0 [] (entry ∷ chain)

-- The loop of `xff_csv_from_chain`: the text so far, and the length of its first element.
unfoldable pub xff_from : IpText → ℕ → Bytes → ℕ → List ForwardedEntry → Option (Bytes × ℕ)
unfolding push_ip_addr
xff_from text idx out first_len [] = some (out, first_len)
xff_from text idx out first_len (entry ∷ chain) = and_then entry.for_node.ip (λ addr.
    let out' = push_ip_addr text (if idx == 0 then out else out ++ bytes ", ") addr in
    xff_from text (suc idx) out' (if idx == 0 then length out' else first_len) chain)

unfoldable pub xff_csv_from_chain : IpText → List ForwardedEntry → Option (Bytes × ℕ)
unfolding xff_from
xff_csv_from_chain text [] = none
xff_csv_from_chain text (entry ∷ chain) = xff_from text 0 [] 0 (entry ∷ chain)
