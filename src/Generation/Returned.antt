-- ===== src/Generation/Returned.antt =====
-- The response that goes back to the client keeps the headers that the proxy does not write.
use rust_rpxy.Common.{◌≡◌, subst, Bool, Option, none, some, [], ◌∷◌, ℕ, bind_some, some_inj, bytes}
use rust_rpxy.HeaderMap.{HeaderMap, HeaderValues}
use rust_rpxy.HopByHop.{remove_connection_header, remove_hop_header}
use rust_rpxy.Generation.{
  AltSvc, alt_svc, h3_alt_svc_port, write_alt_svc, generate_response_forwarded,
}
use rust_rpxy.Generation.Keeping.{Keeps, set_lines-Keeps, add_header_entry-Keeps, Keeps-trans}

write_alt_svc-Keeps :
    (values : HeaderValues) (headers : HeaderMap) (port : Option ℕ) (max_age : ℕ)
    (after : HeaderMap)
    → write_alt_svc values headers port max_age ≡ some after
    → Keeps (alt_svc ∷ []) headers after
unfolding write_alt_svc
write_alt_svc-Keeps values headers none max_age after e =
    subst (Keeps (alt_svc ∷ []) headers) (some_inj e) (set_lines-Keeps headers alt_svc [])
write_alt_svc-Keeps values headers (some port) max_age after e =
    add_header_entry-Keeps values headers alt_svc _ after e

pub generate_response_forwarded-Keeps :
    (values : HeaderValues) (config : AltSvc) (headers : HeaderMap) (mutual_tls : Option Bool)
    (tls : Bool) (after : HeaderMap)
    → generate_response_forwarded values config headers mutual_tls tls ≡ some after
    → Keeps
        (bytes "server" ∷ alt_svc ∷ [])
        (remove_hop_header (remove_connection_header values headers))
        after
unfolding generate_response_forwarded
generate_response_forwarded-Keeps values config headers mutual_tls tls after e =
    let stripped = remove_hop_header (remove_connection_header values headers) in
    let (h, p, q) = bind_some _ _ after e in
    Keeps-trans (bytes "server" ∷ []) (alt_svc ∷ []) stripped h after
      (add_header_entry-Keeps values stripped (bytes "server") _ h p)
      (write_alt_svc-Keeps values h (h3_alt_svc_port config mutual_tls tls)
        config.h3_alt_svc_max_age after q)
