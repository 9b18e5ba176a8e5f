-- ===== src/Generation/Forwarding.antt =====
-- Which headers `add_forwarding_header` writes.
use rust_rpxy.Common.{
  ℕ, ◌≡◌, refl, subst, Bool, true, false, Option, none, some, List, [], ◌∷◌, if◌then◌else◌,
  and_then-some, some_inj, Bytes, bytes, bytes_eq, take,
}
use rust_rpxy.Net.{SocketAddr, to_canonical, canonicalize_ip}
use rust_rpxy.HeaderMap.{
  HeaderMap, HeaderValues, set_lines, insert, contains_key, cookie,
  add_header_entry_overwrite_if_exist, make_cookie_single_line,
}
use rust_rpxy.ForwardedNode.{IpText, ForwardedEntry}
use rust_rpxy.ForwardedEntry.{decimal, generate_forwarded_header}
use rust_rpxy.Forwarding.{IpNet, forwarded, x_forwarded_for, x_forwarded_proto}
use rust_rpxy.OutgoingHeaders.{
  x_forwarded_port, x_forwarded_ssl, x_forwarded_host, x_original_uri, x_real_ip, proxy, View,
  forwarding_view, update_forwarded, write_forwarded, overwrite_host, write_downstream, write_view,
  add_forwarding_header,
}
use rust_rpxy.Generation.Keeping.{
  Keeps, set_lines-Keeps, Keeps-insert, Keeps-then, add_header_entry-Keeps,
  make_cookie_single_line-Keeps,
}

abbrev pub downstream_keys : List Bytes
downstream_keys =
    x_forwarded_proto ∷ x_forwarded_port ∷ x_real_ip ∷ x_forwarded_ssl ∷ x_original_uri
    ∷ x_forwarded_host ∷ proxy ∷ []

abbrev pub forwarding_keys : List Bytes
forwarding_keys = x_forwarded_for ∷ forwarded ∷ cookie ∷ downstream_keys

-- What the last headers are written like.
pub record Written (keys : List Bytes) (before after : HeaderMap) : Type 0 where
  pub keeps : Keeps keys before after
  pub no_proxy : after proxy ≡ [] ∷ []

pub overwrite_host-Keeps :
    (values : HeaderValues) (headers : HeaderMap) (o : Option Bytes) (after : HeaderMap)
    → overwrite_host values headers o ≡ some after
    → Keeps (x_forwarded_host ∷ []) headers after
unfolding overwrite_host
overwrite_host-Keeps values headers none after e =
    subst (Keeps (x_forwarded_host ∷ []) headers) (some_inj e)
      (set_lines-Keeps headers x_forwarded_host [])
overwrite_host-Keeps values headers (some host) after e =
    let (v, _, q) =
      and_then-some (values.from_str host) (λ v. some (insert headers x_forwarded_host v)) after
        e in
    subst (Keeps (x_forwarded_host ∷ []) headers) (some_inj q)
      (set_lines-Keeps headers x_forwarded_host (v ∷ []))

pub set_lines-same :
    (headers : HeaderMap) (key : Bytes) (lines : List Bytes)
    → bytes_eq key key ≡ true
    → set_lines headers key lines key ≡ lines
unfolding set_lines
set_lines-same headers key lines e = rw e refl

pub write_downstream-Written :
    (values : HeaderValues) (headers : HeaderMap) (port : ℕ) (tls : Bool) (real_ip uri : Bytes)
    (host : Option Bytes) (after : HeaderMap)
    → write_downstream values headers port tls real_ip uri host ≡ some after
    → Written downstream_keys headers after
unfolding write_downstream
write_downstream-Written values headers port tls real_ip uri host after e =
    let h1 = insert headers x_forwarded_proto (if tls then bytes "https" else bytes "http") in
    let h2 = insert h1 x_forwarded_port (decimal port) in
    let h3 = insert h2 x_real_ip real_ip in
    let h4 = insert h3 x_forwarded_ssl (if tls then bytes "on" else bytes "off") in
    let (h5, p, e1) =
      and_then-some (add_header_entry_overwrite_if_exist values h4 x_original_uri uri) _ after e in
    let (h6, q, e2) = and_then-some (overwrite_host values h5 host) _ after e1 in
    let k1 =
      Keeps-insert x_forwarded_proto (_ ∷ []) downstream_keys headers headers refl
        (λ name h. refl) in
    let k2 = Keeps-insert x_forwarded_port (decimal port ∷ []) downstream_keys headers h1 refl k1 in
    let k3 = Keeps-insert x_real_ip (real_ip ∷ []) downstream_keys headers h2 refl k2 in
    let k4 = Keeps-insert x_forwarded_ssl (_ ∷ []) downstream_keys headers h3 refl k3 in
    let k5 =
      Keeps-then (x_original_uri ∷ []) downstream_keys headers h4 h5 refl k4
        (add_header_entry-Keeps values h4 x_original_uri uri h5 p) in
    let k6 =
      Keeps-then (x_forwarded_host ∷ []) downstream_keys headers h5 h6 refl k5
        (overwrite_host-Keeps values h5 host h6 q) in
    subst (Written downstream_keys headers) (some_inj e2) (record {
      keeps = Keeps-insert proxy ([] ∷ []) downstream_keys headers h6 refl k6;
      no_proxy = set_lines-same h6 proxy ([] ∷ []) refl;
    })

update_forwarded-Keeps :
    (values : HeaderValues) (headers : HeaderMap) (o : Option Bytes) (after : HeaderMap)
    → update_forwarded values headers o ≡ some after
    → Keeps (forwarded ∷ []) headers after
unfolding update_forwarded
update_forwarded-Keeps values headers none after e =
    subst (Keeps (forwarded ∷ []) headers) (some_inj e) (λ name h. refl)
update_forwarded-Keeps values headers (some v) after e =
    add_header_entry-Keeps values headers forwarded v after e

pub write_forwarded-Keeps :
    (text : IpText) (values : HeaderValues) (b : Bool) (chain : List ForwardedEntry)
    (headers after : HeaderMap)
    → write_forwarded text values b chain headers ≡ some after
    → Keeps (forwarded ∷ []) headers after
unfolding write_forwarded
write_forwarded-Keeps text values true chain headers after e =
    update_forwarded-Keeps values headers (generate_forwarded_header text chain) after e
write_forwarded-Keeps text values false chain headers after e =
    subst (Keeps (forwarded ∷ []) headers) (some_inj e) (set_lines-Keeps headers forwarded [])

write_view-Written :
    (text : IpText) (values : HeaderValues) (headers : HeaderMap) (view : View) (port : ℕ)
    (tls : Bool) (uri : Bytes) (host : Option Bytes) (after : HeaderMap)
    → write_view text values headers view port tls uri host ≡ some after
    → Written forwarding_keys headers after
unfolding write_view
write_view-Written text values headers view port tls uri host after e =
    let (real_ip, _, e1) =
      and_then-some (values.from_str (take view.xff_first_len view.xff_csv)) _ after e in
    let (xff, _, e2) = and_then-some (values.from_bytes view.xff_csv) _ after e1 in
    let h0 = insert headers x_forwarded_for xff in
    let (h1, p, e3) =
      and_then-some (write_forwarded text values (contains_key headers forwarded) view.chain h0) _
        after e2 in
    let (h2, q, e4) = and_then-some (make_cookie_single_line values h1) _ after e3 in
    let w = write_downstream-Written values h2 port tls real_ip uri host after e4 in
    let k0 =
      Keeps-insert x_forwarded_for (xff ∷ []) forwarding_keys headers headers refl
        (λ name h. refl) in
    let k1 =
      Keeps-then (forwarded ∷ []) forwarding_keys headers h0 h1 refl k0
        (write_forwarded-Keeps text values (contains_key headers forwarded) view.chain h0 h1 p) in
    let k2 =
      Keeps-then (cookie ∷ []) forwarding_keys headers h1 h2 refl k1
        (make_cookie_single_line-Keeps values h1 h2 q) in
    record {
      keeps = Keeps-then downstream_keys forwarding_keys headers h2 after refl k2 w.keeps;
      no_proxy = w.no_proxy;
    }

pub add_forwarding_header-Written :
    (text : IpText) (values : HeaderValues) (headers : HeaderMap)
    (client_addr listen_addr : SocketAddr) (tls : Bool) (uri : Bytes) (host : Option Bytes)
    (trusted : List IpNet) (after : HeaderMap)
    → add_forwarding_header text values headers client_addr listen_addr tls uri host trusted
      ≡ some after
    → Written forwarding_keys headers after
unfolding add_forwarding_header
add_forwarding_header-Written text values headers client_addr listen_addr tls uri host trusted after
      e =
    write_view-Written text values headers
      (forwarding_view text values headers (canonicalize_ip (to_canonical client_addr).ip) tls host
        trusted)
      listen_addr.port tls uri host after e
