-- ===== src/Examples/Listening.antt =====
-- PROXY headers at concrete streams: rpxy-lib/src/proxy/proxy_protocol.rs.
use rust_rpxy.Common.{
  ◌≡◌, refl, Bool, true, false, none, some, List, [], ◌∷◌, ◌++◌, Bytes, bytes, any,
}
use rust_rpxy.Net.{IpAddr, v4, SocketAddr}
use rust_rpxy.ProxyProtocol.{Ppp, read_v1, parse_inbound_proxy_header, normalize_mapped_ipv4}
use rust_rpxy.ProxyProtocol.Lines.{first_line, v1_contract, read_v1_lem}
use rust_rpxy.ProxyProtocol.Consumption.{Consumed, parse-Consumed}

abbrev source : SocketAddr
source = record { ip = v4 16909060; port = 1234 }

abbrev peer : SocketAddr
peer = record { ip = v4 167772162; port = 9999 }

-- Every header names one source.
abbrev one_source : Ppp
one_source = record { v1 = λ _. some (some source); v2 = λ _. none }

abbrev everyone : List (IpAddr → Bool)
everyone = (λ _. true) ∷ []

abbrev line : Bytes
line = bytes "PROXY TCP4 1.2.3.4 5.6.7.8 1234 80" ++ 13 ∷ 10 ∷ []

read_v1_lem_example :
    read_v1 [] false (line ++ bytes "GET /")
    ≡ v1_contract [] (first_line false (line ++ bytes "GET /")) (line ++ bytes "GET /")
read_v1_lem_example = read_v1_lem (line ++ bytes "GET /")

-- The first peek sees three bytes only.
parse-Consumed_example :
    (any (λ contains. contains (normalize_mapped_ipv4 peer.ip)) everyone ≡ true)
    × Consumed one_source (line ++ bytes "GET /") (some source) (bytes "GET /")
unfolding parse_inbound_proxy_header
parse-Consumed_example =
    parse-Consumed one_source everyone peer (line ++ bytes "GET /") (2 ∷ 40 ∷ []) (some source)
      (bytes "GET /") refl
