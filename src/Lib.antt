-- ===== src/Lib.antt =====
-- rpxy, an HTTP reverse proxy: models of the parts that decide where a connection and a request go,
-- and what the rest of the system may rely on.
--
-- The parts and how they meet. A listener (rpxy-lib/src/proxy) accepts a connection, takes a slot of
-- the per-IP counter and one of the global counter, reads a PROXY header where one is configured, and
-- serves requests. The message handler (rpxy-lib/src/message_handler) finds the backend application by
-- the host, its `PathManager` finds the group of upstreams by the path, and the group's load balancer
-- chooses one of them by health, turn or cookie. The handler strips the hop-by-hop headers and rewrites
-- the forwarding headers behind the trust boundary. Health checker tasks write the flags that the balancer
-- reads. A response that may be cached is stored while it is relayed.
--
-- Which file models which part:
--   * Net: `SocketAddr` and `to_canonical` (rpxy-lib/src/message_handler/canonical_address.rs).
--   * Count: `RequestCount` and `PerIpConnectionCount` (rpxy-lib/src/count.rs). Count/Requests runs the
--     atomic accesses of many threads in any order, Count/PerIp the calls under the mutex.
--   * Health: `ConsecutiveCounter::record`, `UpstreamHealth` and the rounds of `run_health_checker`
--     (rpxy-lib/src/backend/health_check). Health/Monitor is the abstract monitor.
--   * Upstream and LoadBalance: the upstreams and the balancers (rpxy-lib/src/backend/upstream.rs and
--     rpxy-lib/src/backend/load_balance). A choice reads the flags up to three times, and they can
--     change in between: `first` is the reading before the others, `now` that of the count, and `later`
--     that of the scan.
--   * Route: `PathManager::get` and the names (rpxy-lib/src/backend/upstream.rs,
--     rpxy-lib/src/name_exp.rs). A map is the list of its entries in some order of iteration.
--   * ProxyProtocol: `parse_inbound_proxy_header` and what it calls
--     (rpxy-lib/src/proxy/proxy_protocol.rs).
--   * HeaderText, HeaderMap, ForwardedNode, ForwardedEntry, Forwarding, OutgoingHeaders and ClientScheme:
--     rpxy-lib/src/message_handler/header_ops/forwarding.rs and common.rs, from the text of a header over
--     the nodes and entries to the chain, the outgoing headers and the client-visible scheme.
--   * HopByHop: rpxy-lib/src/message_handler/header_ops/hop.rs.
--   * RequestOps and Dispatch: the host, the path and the version of a request, and the decisions of
--     `handle_request_inner` in their order (rpxy-lib/src/message_handler/request_ops.rs,
--     handler_main.rs, handler_manipulate_messages.rs, http_result.rs), with the applications of
--     rpxy-lib/src/backend/backend_main.rs.
--   * UpstreamHeaders: the options of an upstream group (rpxy-lib/src/message_handler/header_ops/upstream.rs,
--     rpxy-lib/src/backend/upstream_opts.rs). Generation: the request and the response that go on,
--     `generate_request_forwarded` and `generate_response_forwarded`
--     (rpxy-lib/src/message_handler/handler_manipulate_messages.rs).
--   * Cache: the store path of the response cache, `spool_and_store`, and in Cache/Metadata its metadata:
--     `LruCacheManager`, `FileStore` and `publish_cache_object` as the atomic steps of many tasks
--     (rpxy-lib/src/forwarder/cache/cache_main.rs).
--   * RequestBody: the size limit of a request body, `LimitedBody`
--     (rpxy-lib/src/hyper_ext/body_type.rs).
--   * Config: the validation of the configuration and the settings it gives (rpxy-bin/src/config/toml.rs,
--     with the types of rpxy-lib/src/globals.rs and the defaults of rpxy-lib/src/constants.rs). A file of
--     definitions for each group of settings: BodySize, ServerNames, Sockets, HealthChecks, Apps, Proxy,
--     and Settings for `validate_and_build_settings`; the others are about them.
--   * Responding: what becomes of the response of the upstream, the last part of `handle_request_inner`.
--     Redirection: `secure_redirection_response` (rpxy-lib/src/message_handler/synthetic_response.rs).
--   * StickySeal: the sealed value of the sticky cookie
--     (rpxy-lib/src/backend/load_balance/sticky_cookie_seal.rs). StickyHeaders: how the cookie is taken out
--     of a request and set in a response (rpxy-lib/src/message_handler/header_ops/sticky_cookie.rs).
--   * TrustedProxies: the entries of `trusted_forwarded_proxies` (rpxy-trusted-proxies/src/lib.rs).
--   * Common: shared helpers. Examples: tests, and the theorems at concrete inputs.
--
-- Conventions. Words are natural numbers with their wrap-around or saturation written out; `usize` has
-- 64 bits. Byte strings are lists of numbers. A panic is `none`. Loops are structural: over the bytes of
-- a stream, the entries of a map or the accesses of a schedule, so no fuel is needed; the end of the
-- schedule of peeks is the timeout. An error of a header function is `none`, its message is left out.
-- The text of a configuration is ASCII, save where the code asks; integers there are in their range.
-- The digits of a number are printed with a fuel of five, which is enough for a port or an octet, of
-- ten for the 32-bit `ma` of `Alt-Svc`, and of nineteen for the `Max-Age` of a cookie, below 2 ^ 63.
--
-- Not modelled: sockets, TLS, the HTTP client, the freshness of cached responses, the reading of
-- configuration files, the secret of the sticky cookies, certificates and logging. What the code asks of
-- other crates is a parameter: the map of the lru crate, the ppp parsers, `IpNet::contains` and
-- `IpNet::from_str`, `Uri::parse`, the random source, the hash of the upstream ids, the AES-GCM cipher,
-- base64 and the format of dates, the checks of header values in the http crate; the text forms of
-- addresses that std::net reads and prints are parameters too, save the dotted IPv4 form.
mod Common
mod Examples
pub mod Net
pub mod Count
pub mod Health
pub mod Upstream
pub mod LoadBalance
pub mod Route
pub mod ProxyProtocol
pub mod HeaderText
pub mod HeaderMap
pub mod Forwarding
pub mod ClientScheme
pub mod OutgoingHeaders
pub mod HopByHop
pub mod RequestOps
pub mod Dispatch
pub mod Cache
pub mod ForwardedNode
pub mod ForwardedEntry
pub mod UpstreamHeaders
pub mod Generation
pub mod RequestBody
pub mod Config
pub mod TrustedProxies
pub mod StickySeal
pub mod StickyHeaders
pub mod Responding
pub mod Redirection
