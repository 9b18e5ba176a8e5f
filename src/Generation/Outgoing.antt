-- ===== src/Generation/Outgoing.antt =====
-- The headers of the request that `generate_request_forwarded` builds.
use rust_rpxy.Common.{
  ◌≡◌, refl, ap, subst, ◌∙◌, Bool, false, Option, none, some, List, [], ◌∷◌, ◌++◌, if◌then◌else◌,
  bind_some, some_inj, Bytes, bytes,
}
use rust_rpxy.Net.{SocketAddr}
use rust_rpxy.HeaderMap.{HeaderMap, HeaderValues, insert, get, cookie}
use rust_rpxy.ForwardedNode.{IpText}
use rust_rpxy.Forwarding.{IpNet}
use rust_rpxy.OutgoingHeaders.{add_forwarding_header}
use rust_rpxy.HopByHop.{hop_headers}
use rust_rpxy.HopByHop.Removal.{is_one_of, lines_without, first_listed, removal_lem}
use rust_rpxy.RequestOps.{Request, rebuild_path_and_query}
use rust_rpxy.Route.{ServerName}
use rust_rpxy.Upstream.{Upstream}
use rust_rpxy.LoadBalance.Candidates
use rust_rpxy.LoadBalance.Candidates.{
  UpstreamCandidates, LoadBalance, fix_to_first, random, primary_backup, round_robin, sticky,
}
use rust_rpxy.LoadBalance.Sticky.{StickyCookie}
use rust_rpxy.UpstreamHeaders.{host, apply_upstream_options_to_header}
use rust_rpxy.Generation.{
  te, te_signalled, host_from_uri_or_host_header, Uris, Group, Balancing, rewrite_host,
  take_context, prepare, finish, generate_request_forwarded,
}
use rust_rpxy.Generation.Keeping.{Keeps, Keeps-then}
use rust_rpxy.Generation.Forwarding.{add_forwarding_header-Written}
use rust_rpxy.Generation.Options.{option_keys, apply_upstream_options-Keeps, insert_host-Keeps}
use rust_rpxy.Generation.Stages.{
  rewritten_keys, stripped, Forwards, keys_before, Prepared, te-Prepared, Forwards-Keeps,
  HostForced, rewrite_host-Rewritten, line_keys, request_line-Sent, take_context-Keeps,
}

module _ (text : IpText) (values : HeaderValues) (uris : Uris) (trusted : List IpNet) where
  prepare-Prepared :
      (client_addr listen_addr : SocketAddr) (tls : Bool) (req : Request) (after : HeaderMap)
      → prepare text values uris trusted client_addr listen_addr tls req ≡ some after
      → Prepared values req.headers after
  unfolding prepare
  prepare-Prepared client_addr listen_addr tls req after e =
      let (h, p, q) =
        bind_some
          (add_forwarding_header text values (stripped values req.headers) client_addr listen_addr
            tls (uris.to_string req.uri)
            (host_from_uri_or_host_header values req.uri (get req.headers host)) trusted)
          _ after e in
      let w =
        add_forwarding_header-Written text values (stripped values req.headers) client_addr
          listen_addr tls (uris.to_string req.uri)
          (host_from_uri_or_host_header values req.uri (get req.headers host)) trusted h p in
      let signalled = te_signalled (get req.headers te) in
      let h' = if signalled then insert h te (bytes "trailers") else h in
      let i = te-Prepared values req.headers h signalled refl w in
      let k = insert_host-Keeps values h' (get req.headers host) req.uri.host after q in
      record {
        keeps =
            Keeps-then (host ∷ []) keys_before (stripped values req.headers) h' after refl i.keeps
              k;
        forwards =
            Forwards-Keeps values req.headers h' after (host ∷ []) refl refl refl refl k i.forwards;
      }

  record Finished (req : Request) (token : Option Bytes) (fallback : Option ServerName)
      (h : HeaderMap) (out : Request) : Type 0 where
    keeps : Keeps rewritten_keys h out.headers
    forwards : Forwards values req.headers out.headers token
    forced : HostForced values out.headers fallback

  keep_forced :
      (fallback : Option ServerName) (a b : HeaderMap)
      → b host ≡ a host
      → HostForced values a fallback
      → HostForced values b fallback
  keep_forced none a b e f = tt
  keep_forced (some name) a b e (v, p, q) = (v, p, e ∙ q)

  finish-Finished :
      (req : Request) (token : Option Bytes) (group : Group) (fallback : Option ServerName)
      (h : HeaderMap) (upstream : Upstream) (out : Request)
      → Forwards values req.headers h none
      → finish text values uris trusted req token group fallback h upstream ≡ some out
      → Finished req token fallback h out
  unfolding finish
  finish-Finished req token group fallback h upstream out f e =
      let authority = host_from_uri_or_host_header values req.uri (get req.headers host) in
      let (h1, p1, e1) =
        bind_some
          (apply_upstream_options_to_header text values h authority upstream.host_header
            group.options trusted)
          _ out e in
      let (h2, p2, e2) = bind_some (rewrite_host values h1 fallback) _ out e1 in
      let (a, _, e3) = bind_some (uris.authority upstream.uri) _ out e2 in
      let (scheme, _, e4) = bind_some (uris.scheme upstream.uri) _ out e3 in
      let (pq, _, e5) =
        bind_some (rebuild_path_and_query req.uri group.replace_path group.path) _ out e4 in
      let (uri, _, e6) = bind_some (uris.build scheme a pq) _ out e5 in
      let k1 =
        apply_upstream_options-Keeps text values h authority upstream.host_header group.options
          trusted h1 p1 in
      let r = rewrite_host-Rewritten values h1 fallback h2 p2 in
      let f1 = Forwards-Keeps values req.headers h h1 option_keys refl refl refl refl k1 f in
      let f2 = Forwards-Keeps values req.headers h1 h2 (host ∷ []) refl refl refl refl r.keeps f1 in
      let s =
        request_line-Sent values req.headers (record req { headers = h2; uri = uri }) token
          (some scheme) group.options out e6 f2 in
      let m1 = Keeps-then option_keys rewritten_keys h h h1 refl (λ name u. refl) k1 in
      let m2 = Keeps-then (host ∷ []) rewritten_keys h h1 h2 refl m1 r.keeps in
      record {
        keeps = Keeps-then line_keys rewritten_keys h h2 out.headers refl m2 s.keeps;
        forwards = s.forwards;
        forced = keep_forced fallback h2 out.headers (s.keeps host refl) r.forced;
      }

  -- A header of an outgoing request that the proxy does not write itself has the lines that came in, unless
  -- it is a hop-by-hop one or the first `Connection` line lists it. `TE` says at most `trailers`, and that
  -- exactly when it was signalled; `Connection` and `Upgrade` are those of the upgrade, if any; `Proxy` is
  -- empty; and for the default application `Host` is its server name.
  pub generate_request_forwarded-Forwards :
      (balancing : Balancing) (client_addr listen_addr : SocketAddr) (req : Request)
      (token : Option Bytes) (group : Group) (tls : Bool) (fallback : Option ServerName)
      (candidates : UpstreamCandidates) (context : Option StickyCookie) (out : Request)
      (name : Bytes)
      → is_one_of name rewritten_keys ≡ false
      → generate_request_forwarded text values uris trusted balancing client_addr listen_addr req
          token group tls fallback
        ≡ some (candidates, context, out)
      → (out.headers name
          ≡ lines_without (hop_headers ++ first_listed values req.headers) req.headers name)
        × Forwards values req.headers out.headers token
        × HostForced values out.headers fallback
  unfolding generate_request_forwarded
  generate_request_forwarded-Forwards balancing client_addr listen_addr req token group tls fallback
        candidates context out name u e =
      let result : UpstreamCandidates × Option StickyCookie × Request =
        (candidates, context, out) in
      let (h, p, e1) =
        bind_some (prepare text values uris trusted client_addr listen_addr tls req) _ result e in
      let (taken, t, e2) =
        bind_some (take_context values balancing group.candidates.load_balance h) _ result e1 in
      let picked =
        Candidates.get balancing.random_range balancing.ts group.candidates taken.1 balancing.now
          balancing.later in
      let (chosen, _, e3) = bind_some picked.1 _ result e2 in
      let (upstream, _, e4) = bind_some chosen.0 _ result e3 in
      let (out', q, e5) =
        bind_some (finish text values uris trusted req token group fallback taken.0 upstream) _
          result e4 in
      let same = ap (λ x. x.2) (some_inj e5) in
      let i = prepare-Prepared client_addr listen_addr tls req h p in
      let c = take_context-Keeps values balancing group.candidates.load_balance h taken t in
      let f =
        Forwards-Keeps values req.headers h taken.0 (cookie ∷ []) refl refl refl refl c
          i.forwards in
      let d = finish-Finished req token group fallback taken.0 upstream out' f q in
      let k0 = Keeps-then keys_before rewritten_keys _ _ h refl (λ n v. refl) i.keeps in
      let k1 = Keeps-then (cookie ∷ []) rewritten_keys _ h taken.0 refl k0 c in
      let k =
        Keeps-then rewritten_keys rewritten_keys (stripped values req.headers) taken.0 out'.headers
          refl k1 d.keeps in
      subst
        (λ o.
          (o.headers name
            ≡ lines_without (hop_headers ++ first_listed values req.headers) req.headers name)
          × Forwards values req.headers o.headers token
          × HostForced values o.headers fallback)
        same (k name u ∙ removal_lem values req.headers name, d.forwards, d.forced)
