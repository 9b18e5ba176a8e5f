-- ===== src/Examples/Sending.antt =====
-- The outgoing request at a concrete one: rpxy-lib/src/message_handler/handler_manipulate_messages.rs.
use rust_rpxy.Common.{
  ◌≡◌, refl, false, Option, none, some, [], ◌∷◌, ◌++◌, if◌then◌else◌, unwrap_or, bytes, bytes_eq,
}
use rust_rpxy.Net.{v4, SocketAddr}
use rust_rpxy.HeaderMap.{
  HeaderMap, HeaderValues, set_lines, make_cookie_single_line, add_header_entry_overwrite_if_exist,
}
use rust_rpxy.ForwardedNode.{IpText}
use rust_rpxy.RequestOps.{Uri, Request, http, http_11, rebuild_path_and_query}
use rust_rpxy.HopByHop.{hop_headers, remove_hop_header, remove_connection_header}
use rust_rpxy.OutgoingHeaders.{add_forwarding_header}
use rust_rpxy.HeaderText.{non_empty_trimmed, split, trim, trim_end, trim_start}
use rust_rpxy.LoadBalance.Candidates
use rust_rpxy.HopByHop.Removal.{lines_without, first_listed}
use rust_rpxy.Upstream.{Upstream, has_health_state}
use rust_rpxy.LoadBalance.Sticky.{StickyCookie}
use rust_rpxy.LoadBalance.{first_available_index}
use rust_rpxy.UpstreamHeaders.{apply_upstream_options_to_header}
use rust_rpxy.LoadBalance.Candidates.{UpstreamCandidates, get_context, fix_to_first}
use rust_rpxy.Generation.{
  host_from_uri_or_host_header, Uris, Group, Balancing, generate_request_forwarded,
}
use rust_rpxy.Generation.Stages.{Forwards, HostForced}
use rust_rpxy.Generation.Outgoing.{generate_request_forwarded-Forwards}

abbrev values : HeaderValues
values = record { to_str = λ s. some s; from_str = λ s. some s; from_bytes = λ s. some s }

abbrev text : IpText
text = record { from_str = λ s. none; show_v6 = λ a. [] }

abbrev headers : HeaderMap
headers name =
    if bytes_eq name (bytes "host")
    then bytes "a.example" ∷ []
    else (if bytes_eq name (bytes "connection")
        then bytes "close, X-Foo" ∷ []
        else (if bytes_eq name (bytes "accept") then bytes "*/*" ∷ [] else []))

abbrev uri : Uri
uri = record {
  scheme = none;
  host = none;
  port = none;
  path = bytes "/x";
  path_and_query = some (bytes "/x");
}

abbrev request : Request
request = record { headers = headers; uri = uri; version = http_11 }

abbrev uris : Uris
uris = record {
  to_string = λ u. u.path;
  scheme = λ s. some http;
  authority = λ s. some s;
  build = λ s a pq.
      some (record {
        scheme = some s;
        host = some a;
        port = none;
        path = pq;
        path_and_query = some pq;
      });
}

abbrev backend : Upstream
backend = record { uri = bytes "backend"; host_header = none; health = none }

abbrev candidates : UpstreamCandidates
candidates = record { inner = backend ∷ []; load_balance = fix_to_first }

abbrev group : Group
group = record { candidates = candidates; path = bytes "/"; replace_path = none; options = [] }

abbrev balancing : Balancing
balancing = record {
  random_range = λ n. 0;
  ts = 0;
  cipher = none;
  now = backend ∷ [];
  later = backend ∷ [];
}

abbrev peer : SocketAddr
peer = record { ip = v4 3221225985; port = 40000 }

abbrev listener : SocketAddr
listener = record { ip = v4 0; port = 80 }

abbrev generated : Option (UpstreamCandidates × Option StickyCookie × Request)
generated =
    generate_request_forwarded text values uris [] balancing peer listener request none group false
      none

abbrev sent : UpstreamCandidates × Option StickyCookie × Request
sent = unwrap_or generated (candidates, none, request)

is_generated : generated ≡ some (sent.0, sent.1, sent.2)
unfolding generate_request_forwarded add_forwarding_header remove_hop_header set_lines
    remove_connection_header non_empty_trimmed split trim trim_end trim_start
    make_cookie_single_line add_header_entry_overwrite_if_exist host_from_uri_or_host_header
    Candidates.get get_context first_available_index has_health_state
    apply_upstream_options_to_header rebuild_path_and_query
is_generated = refl

generate_request_forwarded-Forwards_example :
    (sent.2.headers (bytes "accept")
      ≡ lines_without (hop_headers ++ first_listed values headers) headers (bytes "accept"))
    × Forwards values headers sent.2.headers none
    × HostForced values sent.2.headers none
generate_request_forwarded-Forwards_example =
    generate_request_forwarded-Forwards text values uris [] balancing peer listener request none
      group false none sent.0 sent.1 sent.2 (bytes "accept") refl is_generated
