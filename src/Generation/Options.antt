-- ===== src/Generation/Options.antt =====
-- Which headers the options of the upstream group and the host insertion write.
use rust_rpxy.Common.{
  ◌≡◌, refl, subst, Bool, true, false, ◌&&◌, not, Option, none, some, List, [], ◌∷◌, if◌then◌else◌,
  bind_some, some_inj, Bytes, bytes, ◌>>=◌,
}
use rust_rpxy.HeaderMap.{HeaderMap, HeaderValues, insert, contains_key}
use rust_rpxy.ForwardedNode.{IpText, ForwardedEntry}
use rust_rpxy.ForwardedEntry.{generate_forwarded_header}
use rust_rpxy.Forwarding.{
  IpNet, forwarded, reduce_trusted_proxy_chain, extract_forwarding_chain_from_headers,
}
use rust_rpxy.RequestOps.{
  UpstreamOption, keep_original_host, set_upstream_host, upgrade_insecure_requests,
  forwarded_header,
}
use rust_rpxy.UpstreamHeaders.{
  host, upgrade_insecure, contains, override_host_header, set_host, upgrade_insecurely,
  add_generated, add_found, add_forwarded, apply_upstream_options_to_header,
}
use rust_rpxy.Generation.{insert_host}
use rust_rpxy.Generation.Keeping.{Keeps, set_lines-Keeps, Keeps-then, add_header_entry-Keeps}

abbrev pub option_keys : List Bytes
option_keys = host ∷ upgrade_insecure ∷ forwarded ∷ []

set_host-Keeps :
    (headers : HeaderMap) (host_header : Option Bytes) (options : List UpstreamOption)
    (after : HeaderMap)
    → set_host headers host_header options ≡ some after
    → Keeps (host ∷ []) headers after
unfolding set_host override_host_header
set_host-Keeps headers host_header options after e =
    go (contains options set_upstream_host && not (contains options keep_original_host)) host_header
      e
  where
    go :
        (b : Bool) (o : Option Bytes)
        → (if b then override_host_header headers o else some headers) ≡ some after
        → Keeps (host ∷ []) headers after
    go true none e = absurd (cc)
    go true (some v) e =
        subst (Keeps (host ∷ []) headers) (some_inj e) (set_lines-Keeps headers host (v ∷ []))
    go false o e = subst (Keeps (host ∷ []) headers) (some_inj e) (λ name h. refl)

upgrade_insecurely-Keeps :
    (headers : HeaderMap) (options : List UpstreamOption)
    → Keeps (upgrade_insecure ∷ []) headers (upgrade_insecurely headers options)
unfolding upgrade_insecurely
upgrade_insecurely-Keeps headers options =
    go (contains options upgrade_insecure_requests && not (contains_key headers upgrade_insecure))
  where
    go :
        (b : Bool)
        → Keeps
            (upgrade_insecure ∷ [])
            headers
            (if b then insert headers upgrade_insecure (bytes "1") else headers)
    go true = set_lines-Keeps headers upgrade_insecure (bytes "1" ∷ [])
    go false = λ name h. refl

add_found-Keeps :
    (text : IpText) (values : HeaderValues) (headers : HeaderMap) (trusted : List IpNet)
    (found : Option (List ForwardedEntry)) (after : HeaderMap)
    → add_found text values headers trusted found ≡ some after
    → Keeps (forwarded ∷ []) headers after
unfolding add_found add_generated
add_found-Keeps text values headers trusted none after e =
    subst (Keeps (forwarded ∷ []) headers) (some_inj e) (λ name h. refl)
add_found-Keeps text values headers trusted (some chain) after e =
    go (generate_forwarded_header text (reduce_trusted_proxy_chain chain trusted)) e
  where
    go :
        (o : Option Bytes)
        → add_generated values headers o ≡ some after
        → Keeps (forwarded ∷ []) headers after
    go none e = subst (Keeps (forwarded ∷ []) headers) (some_inj e) (λ name h. refl)
    go (some v) e = add_header_entry-Keeps values headers forwarded v after e

add_forwarded-Keeps :
    (text : IpText) (values : HeaderValues) (headers : HeaderMap) (host : Option Bytes)
    (options : List UpstreamOption) (trusted : List IpNet) (after : HeaderMap)
    → add_forwarded text values headers host options trusted ≡ some after
    → Keeps (forwarded ∷ []) headers after
unfolding add_forwarded
add_forwarded-Keeps text values headers host options trusted after e =
    go (contains options forwarded_header && not (contains_key headers forwarded)) e
  where
    go :
        (b : Bool)
        → (if b
            then extract_forwarding_chain_from_headers text values headers host
              >>= add_found text values headers trusted
            else some headers)
          ≡ some after
        → Keeps (forwarded ∷ []) headers after
    go true e =
        let (found, _, q) =
          bind_some (extract_forwarding_chain_from_headers text values headers host)
            (add_found text values headers trusted) after e in
        add_found-Keeps text values headers trusted found after q
    go false e = subst (Keeps (forwarded ∷ []) headers) (some_inj e) (λ name h. refl)

pub apply_upstream_options-Keeps :
    (text : IpText) (values : HeaderValues) (headers : HeaderMap)
    (authority host_header : Option Bytes) (options : List UpstreamOption) (trusted : List IpNet)
    (after : HeaderMap)
    → apply_upstream_options_to_header text values headers authority host_header options trusted
      ≡ some after
    → Keeps option_keys headers after
unfolding apply_upstream_options_to_header
apply_upstream_options-Keeps text values headers authority host_header options trusted after e =
    let (h, p, q) = bind_some (set_host headers host_header options) _ after e in
    let k1 =
      Keeps-then (host ∷ []) option_keys headers headers h refl (λ name u. refl)
        (set_host-Keeps headers host_header options h p) in
    let k2 =
      Keeps-then (upgrade_insecure ∷ []) option_keys headers h (upgrade_insecurely h options) refl
        k1 (upgrade_insecurely-Keeps h options) in
    Keeps-then (forwarded ∷ []) option_keys headers (upgrade_insecurely h options) after refl k2 (
      add_forwarded-Keeps text values (upgrade_insecurely h options) authority options trusted after
        q)

pub insert_host-Keeps :
    (values : HeaderValues) (headers : HeaderMap) (original uri_host : Option Bytes)
    (after : HeaderMap)
    → insert_host values headers original uri_host ≡ some after
    → Keeps (host ∷ []) headers after
unfolding insert_host
insert_host-Keeps values headers (some o) uri_host after e =
    subst (Keeps (host ∷ []) headers) (some_inj e) (λ name h. refl)
insert_host-Keeps values headers none uri_host after e =
    let (h, _, e1) = bind_some uri_host _ after e in
    let (v, _, e2) = bind_some (values.from_str h) _ after e1 in
    subst (Keeps (host ∷ []) headers) (some_inj e2) (set_lines-Keeps headers host (v ∷ []))
