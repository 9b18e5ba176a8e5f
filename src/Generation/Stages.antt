-- ===== src/Generation/Stages.antt =====
-- What the stages of `generate_request_forwarded` keep and write.
use rust_rpxy.Common.{
  ◌≡◌, refl, sym, ap, subst, ◌∙◌, Bool, true, false, Option, none, some, List, [], ◌∷◌,
  if◌then◌else◌, bind_some, some_inj, Bytes, bytes,
}
use rust_rpxy.HeaderMap.{HeaderMap, HeaderValues, insert, get, cookie}
use rust_rpxy.OutgoingHeaders.{proxy}
use rust_rpxy.HopByHop.{connection, upgrade, remove_connection_header, remove_hop_header}
use rust_rpxy.HopByHop.Removal.{is_one_of, removal_lem}
use rust_rpxy.RequestOps.{Scheme, Request, UpstreamOption}
use rust_rpxy.Route.{ServerName}
use rust_rpxy.LoadBalance.Candidates.{
  LoadBalance, fix_to_first, random, primary_backup, round_robin, sticky,
}
use rust_rpxy.LoadBalance.Sticky.{StickyCookie}
use rust_rpxy.StickyHeaders.Taking.{takeout-Keeps}
use rust_rpxy.UpstreamHeaders.{host, upgrade_insecure, apply_default_app_host_rewrite}
use rust_rpxy.Generation.{te, te_signalled, Balancing, rewrite_host, request_line, take_context}
use rust_rpxy.Generation.Keeping.{Keeps, set_lines-Keeps, Keeps-insert, Keeps-then}
use rust_rpxy.Generation.Forwarding.{forwarding_keys, Written, set_lines-same}

-- The names whose lines the proxy writes itself.
abbrev pub rewritten_keys : List Bytes
rewritten_keys = te ∷ host ∷ upgrade_insecure ∷ upgrade ∷ connection ∷ forwarding_keys

abbrev pub no_lines : List Bytes
no_lines = []

abbrev pub te_lines : Bool → List Bytes
te_lines signalled = if signalled then bytes "trailers" ∷ [] else []

abbrev pub connection_lines : Option Bytes → List Bytes
connection_lines none = []
connection_lines (some token) = bytes "upgrade" ∷ []

abbrev pub lines_of : Option Bytes → List Bytes
lines_of none = []
lines_of (some v) = v ∷ []

abbrev pub upgrade_lines : HeaderValues → Option Bytes → List Bytes
upgrade_lines values none = []
upgrade_lines values (some token) = lines_of (values.from_str token)

abbrev pub stripped : HeaderValues → HeaderMap → HeaderMap
stripped values headers = remove_hop_header (remove_connection_header values headers)

-- What holds of the headers of an outgoing request for the one that came in.
pub record Forwards (values : HeaderValues) (before after : HeaderMap) (token : Option Bytes)
    : Type 0 where
  pub te_normal : after te ≡ te_lines (te_signalled (get before te))
  pub connection_normal : after connection ≡ connection_lines token
  pub upgrade_normal : after upgrade ≡ upgrade_lines values token
  pub proxy_empty : after proxy ≡ [] ∷ []

abbrev pub keys_before : List Bytes
keys_before = te ∷ host ∷ forwarding_keys

pub record Prepared (values : HeaderValues) (before after : HeaderMap) : Type 0 where
  pub keeps : Keeps keys_before (stripped values before) after
  pub forwards : Forwards values before after none

pub te-Prepared :
    (values : HeaderValues) (before h : HeaderMap) (signalled : Bool)
    → signalled ≡ te_signalled (get before te)
    → Written forwarding_keys (stripped values before) h
    → Prepared values before (if signalled then insert h te (bytes "trailers") else h)
te-Prepared values before h true e w = record {
  keeps =
      Keeps-insert te (bytes "trailers" ∷ []) keys_before (stripped values before) h refl
        (Keeps-then forwarding_keys keys_before _ _ h refl (λ name u. refl) w.keeps);
  forwards = record {
    te_normal = set_lines-same h te (bytes "trailers" ∷ []) refl ∙ ap te_lines e;
    connection_normal =
        set_lines-Keeps h te _ connection refl
        ∙ w.keeps connection refl
        ∙ removal_lem values before connection;
    upgrade_normal =
        set_lines-Keeps h te _ upgrade refl
        ∙ w.keeps upgrade refl
        ∙ removal_lem values before upgrade;
    proxy_empty = set_lines-Keeps h te _ proxy refl ∙ w.no_proxy;
  };
}
te-Prepared values before h false e w = record {
  keeps = Keeps-then forwarding_keys keys_before _ _ h refl (λ name u. refl) w.keeps;
  forwards = record {
    te_normal = w.keeps te refl ∙ removal_lem values before te ∙ ap te_lines e;
    connection_normal = w.keeps connection refl ∙ removal_lem values before connection;
    upgrade_normal = w.keeps upgrade refl ∙ removal_lem values before upgrade;
    proxy_empty = w.no_proxy;
  };
}

-- An operation that writes none of the four.
pub Forwards-Keeps :
    (values : HeaderValues) (before h after : HeaderMap) (keys : List Bytes)
    → is_one_of te keys ≡ false
    → is_one_of connection keys ≡ false
    → is_one_of upgrade keys ≡ false
    → is_one_of proxy keys ≡ false
    → Keeps keys h after
    → Forwards values before h none
    → Forwards values before after none
Forwards-Keeps values before h after keys a b c d k f = record {
  te_normal = k te a ∙ f.te_normal;
  connection_normal = k connection b ∙ f.connection_normal;
  upgrade_normal = k upgrade c ∙ f.upgrade_normal;
  proxy_empty = k proxy d ∙ f.proxy_empty;
}

-- The fallback to the default application sets the host.
abbrev pub HostForced : HeaderValues → HeaderMap → Option ServerName → Type 0
HostForced values after none = Unit
HostForced values after (some name) =
    (v : Bytes) × (values.from_bytes name.inner ≡ some v) × (after host ≡ v ∷ [])

pub record Rewritten (values : HeaderValues) (fallback : Option ServerName)
    (before after : HeaderMap) : Type 0 where
  pub keeps : Keeps (host ∷ []) before after
  pub forced : HostForced values after fallback

pub rewrite_host-Rewritten :
    (values : HeaderValues) (headers : HeaderMap) (fallback : Option ServerName) (after : HeaderMap)
    → rewrite_host values headers fallback ≡ some after
    → Rewritten values fallback headers after
unfolding rewrite_host apply_default_app_host_rewrite
rewrite_host-Rewritten values headers none after e =
    subst (Rewritten values none headers) (some_inj e)
      (record { keeps = λ name h. refl; forced = tt })
rewrite_host-Rewritten values headers (some name) after e =
    let (v, p, q) = bind_some (values.from_bytes name.inner) _ after e in
    subst (Rewritten values (some name) headers) (some_inj q) (record {
      keeps = set_lines-Keeps headers host (v ∷ []);
      forced = (v, p, set_lines-same headers host (v ∷ []) refl);
    })

abbrev pub line_keys : List Bytes
line_keys = upgrade ∷ connection ∷ []

pub record Sent (values : HeaderValues) (before h : HeaderMap) (token : Option Bytes)
    (out : Request) : Type 0 where
  pub keeps : Keeps line_keys h out.headers
  pub forwards : Forwards values before out.headers token

pub request_line-Sent :
    (values : HeaderValues) (before : HeaderMap) (req : Request) (token : Option Bytes)
    (scheme : Option Scheme) (options : List UpstreamOption) (out : Request)
    → request_line values req token scheme options ≡ some out
    → Forwards values before req.headers none
    → Sent values before req.headers token out
unfolding request_line
request_line-Sent values before req none scheme options out e f =
    subst (Sent values before req.headers none) (some_inj e)
      (record { keeps = λ name u. refl; forwards = f })
request_line-Sent values before req (some token) scheme options out e f =
    let (v, p, q) = bind_some (values.from_str token) _ out e in
    let h = insert req.headers upgrade v in
    let k = Keeps-insert upgrade (v ∷ []) line_keys req.headers req.headers refl (λ name u. refl) in
    let k' = Keeps-insert connection (bytes "upgrade" ∷ []) line_keys req.headers h refl k in
    subst (Sent values before req.headers (some token)) (some_inj q) (record {
      keeps = k';
      forwards = record {
        te_normal = k' te refl ∙ f.te_normal;
        connection_normal = set_lines-same h connection (bytes "upgrade" ∷ []) refl;
        upgrade_normal =
            set_lines-Keeps h connection _ upgrade refl
            ∙ set_lines-same req.headers upgrade (v ∷ []) refl
            ∙ ap lines_of (sym p);
        proxy_empty = k' proxy refl ∙ f.proxy_empty;
      };
    })

pub take_context-Keeps :
    (values : HeaderValues) (balancing : Balancing) (lb : LoadBalance) (headers : HeaderMap)
    (after : HeaderMap × Option StickyCookie)
    → take_context values balancing lb headers ≡ some after
    → Keeps (cookie ∷ []) headers after.0
unfolding take_context
take_context-Keeps values balancing (sticky lb) headers after e =
    let (crates, _, q) = bind_some balancing.cipher _ after e in
    takeout-Keeps values crates balancing.ts lb.sticky_config headers after q
take_context-Keeps values balancing fix_to_first headers after e =
    subst (λ a. Keeps (cookie ∷ []) headers a.0) (some_inj e) (λ name h. refl)
take_context-Keeps values balancing random headers after e =
    subst (λ a. Keeps (cookie ∷ []) headers a.0) (some_inj e) (λ name h. refl)
take_context-Keeps values balancing primary_backup headers after e =
    subst (λ a. Keeps (cookie ∷ []) headers a.0) (some_inj e) (λ name h. refl)
take_context-Keeps values balancing (round_robin rr) headers after e =
    subst (λ a. Keeps (cookie ∷ []) headers a.0) (some_inj e) (λ name h. refl)
