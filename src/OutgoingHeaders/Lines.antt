-- ===== src/OutgoingHeaders/Lines.antt =====
-- The lines that `add_forwarding_header` gives `X-Forwarded-For` and `X-Real-IP`.
use rust_rpxy.Common.{
  ℕ, ◌≡◌, refl, ◌∙◌, subst, Bool, Option, some, [], ◌∷◌, if◌then◌else◌, and_then-some, some_inj,
  Bytes, bytes, take,
}
use rust_rpxy.HeaderMap.{
  HeaderMap, HeaderValues, insert, contains_key, add_header_entry_overwrite_if_exist,
  make_cookie_single_line,
}
use rust_rpxy.ForwardedNode.{IpText}
use rust_rpxy.ForwardedEntry.{decimal}
use rust_rpxy.Forwarding.{forwarded, x_forwarded_for, x_forwarded_proto}
use rust_rpxy.OutgoingHeaders.{
  x_forwarded_port, x_forwarded_ssl, x_original_uri, x_real_ip, proxy, View, write_forwarded,
  overwrite_host, write_downstream, write_view,
}
use rust_rpxy.Generation.Keeping.{
  set_lines-Keeps, add_header_entry-Keeps, make_cookie_single_line-Keeps,
}
use rust_rpxy.Generation.Forwarding.{
  set_lines-same, overwrite_host-Keeps, write_forwarded-Keeps, write_downstream-Written,
}

write_downstream-real_ip :
    (values : HeaderValues) (headers : HeaderMap) (port : ℕ) (tls : Bool) (real_ip uri : Bytes)
    (host : Option Bytes) (after : HeaderMap)
    → write_downstream values headers port tls real_ip uri host ≡ some after
    → after x_real_ip ≡ real_ip ∷ []
unfolding write_downstream
write_downstream-real_ip values headers port tls real_ip uri host after e =
    let h1 = insert headers x_forwarded_proto (if tls then bytes "https" else bytes "http") in
    let h2 = insert h1 x_forwarded_port (decimal port) in
    let h3 = insert h2 x_real_ip real_ip in
    let h4 = insert h3 x_forwarded_ssl (if tls then bytes "on" else bytes "off") in
    let (h5, p, e1) =
      and_then-some (add_header_entry_overwrite_if_exist values h4 x_original_uri uri) _ after e in
    let (h6, q, e2) = and_then-some (overwrite_host values h5 host) _ after e1 in
    subst (λ (m : HeaderMap). m x_real_ip ≡ real_ip ∷ []) (some_inj e2)
      (set_lines-Keeps h6 proxy ([] ∷ []) x_real_ip refl
        ∙ overwrite_host-Keeps values h5 host h6 q x_real_ip refl
        ∙ add_header_entry-Keeps values h4 x_original_uri uri h5 p x_real_ip refl
        ∙ set_lines-Keeps h3 x_forwarded_ssl (_ ∷ []) x_real_ip refl
        ∙ set_lines-same h2 x_real_ip (real_ip ∷ []) refl)

-- What the two headers are, for the text of a view and the length of its first address.
pub record Lines (values : HeaderValues) (view : View) (after : HeaderMap) : Type 0 where
  pub xff : Bytes
  pub real_ip : Bytes
  pub xff_value : values.from_bytes view.xff_csv ≡ some xff
  pub real_ip_value : values.from_str (take view.xff_first_len view.xff_csv) ≡ some real_ip
  pub xff_lines : after x_forwarded_for ≡ xff ∷ []
  pub real_ip_lines : after x_real_ip ≡ real_ip ∷ []

pub write_view-Lines :
    (text : IpText) (values : HeaderValues) (headers : HeaderMap) (view : View) (port : ℕ)
    (tls : Bool) (uri : Bytes) (host : Option Bytes) (after : HeaderMap)
    → write_view text values headers view port tls uri host ≡ some after
    → Lines values view after
unfolding write_view
write_view-Lines text values headers view port tls uri host after e =
    let (real_ip, r, e1) =
      and_then-some (values.from_str (take view.xff_first_len view.xff_csv)) _ after e in
    let (xff, x, e2) = and_then-some (values.from_bytes view.xff_csv) _ after e1 in
    let h0 = insert headers x_forwarded_for xff in
    let (h1, p, e3) =
      and_then-some (write_forwarded text values (contains_key headers forwarded) view.chain h0) _
        after e2 in
    let (h2, q, e4) = and_then-some (make_cookie_single_line values h1) _ after e3 in
    record {
      xff = xff;
      real_ip = real_ip;
      xff_value = x;
      real_ip_value = r;
      xff_lines =
          (write_downstream-Written values h2 port tls real_ip uri host after e4).keeps
            x_forwarded_for refl
          ∙ make_cookie_single_line-Keeps values h1 h2 q x_forwarded_for refl
          ∙ write_forwarded-Keeps text values (contains_key headers forwarded) view.chain h0 h1 p
              x_forwarded_for refl
          ∙ set_lines-same headers x_forwarded_for (xff ∷ []) refl;
      real_ip_lines = write_downstream-real_ip values h2 port tls real_ip uri host after e4;
    }
