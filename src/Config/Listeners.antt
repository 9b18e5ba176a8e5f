-- ===== src/Config/Listeners.antt =====
-- What holds of the ports of a `ProxyConfig` that is built from the configuration.
use rust_rpxy.Common.{
  ℕ, ◌≤◌, ◌≡◌, ◌≢◌, refl, sym, subst, true, false, not, ◌||◌, Option, none, some, List, [], ◌∷◌,
  arith, length, Bytes, traverse, length-traverse, bind_some, ensure-some, some_inj, is_some,
  unwrap_or,
}
use rust_rpxy.TrustedProxies.{IpNets}
use rust_rpxy.Config.Sockets.{AddressParsers, non_empty, build_listen_sockets}
use rust_rpxy.Config.Proxy.{
  ConfigToml, ProxyConfig, TcpRecvProxyProtocolConfig, or_else, ports_differ, vec_of, body_size_of,
  trusted_of, base_config, with_cache, with_h3, proxy_protocol_of, with_experimental,
  build_proxy_config,
}

non_empty_le : (xs : List Bytes) → non_empty xs ≡ true → 1 ≤ length xs
non_empty_le [] h = absurd (cc)
non_empty_le (x ∷ xs) h = omega arith

-- A PROXY header is received from some network, if at all.
abbrev pub Trusts : {N : Type 0} → Option (TcpRecvProxyProtocolConfig N) → Type 0
Trusts none = Unit
Trusts (some r) = 1 ≤ length r.trusted_proxies

abbrev pub Apart : Option ℕ → Option ℕ → Type 0
Apart (some a) (some b) = a ≢ b
Apart _ _ = Unit

-- A public port goes with a TLS port.
abbrev pub NeedsTls : Option ℕ → Option ℕ → Type 0
NeedsTls (some p) none = ⊥
NeedsTls _ _ = Unit

ports-Apart : (a b : Option ℕ) → ports_differ a b ≡ true → Apart a b
ports-Apart none none h = tt
ports-Apart none (some b) h = tt
ports-Apart (some a) none h = tt
ports-Apart (some a) (some b) h = λ e. absurd (ground arith)

public-NeedsTls : (a b : Option ℕ) → not (is_some a) || is_some b ≡ true → NeedsTls (or_else a b) b
public-NeedsTls none none h = tt
public-NeedsTls none (some b) h = tt
public-NeedsTls (some a) (some b) h = tt
public-NeedsTls (some a) none h = absurd (cc)

module _ {N : Type 0} where
  pub record SoundListeners (c : ProxyConfig N) : Type 0 where
    pub listens : is_some c.http_port || is_some c.https_port ≡ true
    pub apart : Apart c.http_port c.https_port
    pub public_port : NeedsTls c.public_https_port c.https_port
    pub receives : Trusts c.tcp_recv_proxy_protocol

  record SamePorts (toml : ConfigToml) (c : ProxyConfig N) : Type 0 where
    http : c.http_port ≡ toml.listen_port
    https : c.https_port ≡ toml.listen_port_tls
    public : c.public_https_port ≡ or_else toml.public_https_port toml.listen_port_tls

  proxy_protocol_of-Trusts :
      (nets : IpNets N) (o : _) (r : _) → proxy_protocol_of nets o ≡ some r → Trusts r
  unfolding proxy_protocol_of
  proxy_protocol_of-Trusts nets none r e = subst Trusts (some_inj e) tt
  proxy_protocol_of-Trusts nets (some o) r e =
      let (a, e1) = ensure-some (non_empty o.trusted_proxies) _ r e in
      let (ns, t, e2) = bind_some (traverse nets.parse_net o.trusted_proxies) _ r e1 in
      subst Trusts (some_inj e2)
        (subst (λ n. 1 ≤ n) (sym (length-traverse _ _ ns t)) (non_empty_le _ a))

  with_cache-SamePorts :
      (nets : IpNets N) (toml : ConfigToml) (o : _) (c : ProxyConfig N)
      → SamePorts toml c
      → SamePorts toml (with_cache nets c o)
  unfolding with_cache
  with_cache-SamePorts nets toml none c s = s
  with_cache-SamePorts nets toml (some o) c s = record {
    http = s.http;
    https = s.https;
    public = s.public;
  }

  with_h3-SamePorts :
      (nets : IpNets N) (toml : ConfigToml) (o : _) (c : ProxyConfig N)
      → SamePorts toml c
      → SamePorts toml (with_h3 nets c o)
  unfolding with_h3
  with_h3-SamePorts nets toml none c s = s
  with_h3-SamePorts nets toml (some o) c s = record {
    http = s.http;
    https = s.https;
    public = s.public;
  }

  record Extended (toml : ConfigToml) (c : ProxyConfig N) : Type 0 where
    ports : SamePorts toml c
    trusts : Trusts c.tcp_recv_proxy_protocol

  with_experimental-Extended :
      (nets : IpNets N) (toml : ConfigToml) (o : _) (c d : ProxyConfig N)
      → SamePorts toml c
      → c.tcp_recv_proxy_protocol ≡ none
      → with_experimental nets c o ≡ some d
      → Extended toml d
  unfolding with_experimental
  with_experimental-Extended nets toml none c d s n e =
      subst (Extended toml) (some_inj e) (record { ports = s; trusts = rw n tt })
  with_experimental-Extended nets toml (some exp) c d s n e =
      let (r, p, e1) = bind_some (proxy_protocol_of nets exp.tcp_recv_proxy_protocol) _ d e in
      let t = with_cache-SamePorts nets toml exp.cache _ (with_h3-SamePorts nets toml exp.h3 c s) in
      subst (Extended toml) (some_inj e1) (record {
        ports = record { http = t.http; https = t.https; public = t.public };
        trusts = proxy_protocol_of-Trusts nets exp.tcp_recv_proxy_protocol r p;
      })

  checked-Sound :
      (toml : ConfigToml) (c : ProxyConfig N)
      → Extended toml c
      → is_some toml.listen_port || is_some toml.listen_port_tls ≡ true
      → ports_differ toml.listen_port toml.listen_port_tls ≡ true
      → not (is_some toml.public_https_port) || is_some toml.listen_port_tls ≡ true
      → SoundListeners c
  checked-Sound toml c x a b d = record {
    listens = rw (x.ports.http, x.ports.https) a;
    apart = rw (x.ports.http, x.ports.https) (ports-Apart toml.listen_port toml.listen_port_tls b);
    public_port =
        rw (x.ports.public, x.ports.https)
          (public-NeedsTls toml.public_https_port toml.listen_port_tls d);
    receives = x.trusts;
  }

  pub build_proxy_config-Sound :
      (nets : IpNets N) (parsers : AddressParsers) (toml : ConfigToml) (c : ProxyConfig N)
      → build_proxy_config nets parsers toml ≡ some c
      → SoundListeners c
  unfolding build_proxy_config base_config
  build_proxy_config-Sound nets parsers toml c e =
      let (_, e1) = ensure-some (not (is_some toml.https_redirection_port)) _ c e in
      let (a, e2) = ensure-some (is_some toml.listen_port || is_some toml.listen_port_tls) _ c e1 in
      let (b, e3) = ensure-some (ports_differ toml.listen_port toml.listen_port_tls) _ c e2 in
      let (d, e4) =
        ensure-some (not (is_some toml.public_https_port) || is_some toml.listen_port_tls) _ c e3 in
      let (ss, _, e5) =
        bind_some
          (build_listen_sockets parsers (vec_of toml.listen_address_v4)
            (vec_of toml.listen_address_v6) (unwrap_or toml.listen_ipv6 false) toml.listen_port
            toml.listen_port_tls)
          _ c e4 in
      let (ts, _, e6) = bind_some (trusted_of nets toml.trusted_forwarded_proxies) _ c e5 in
      let (bs, _, e7) = bind_some (body_size_of toml.request_max_body_size) _ c e6 in
      checked-Sound toml c
        (with_experimental-Extended nets toml toml.experimental (base_config nets toml ss ts bs) c
          (record { http = refl; https = refl; public = refl }) refl e7)
        a b d
