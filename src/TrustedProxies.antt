-- ===== src/TrustedProxies.antt =====
-- rpxy-trusted-proxies/src/lib.rs: the entries of `trusted_forwarded_proxies`. The type of networks, its
-- equality and its parser are those of the ipnet crate; the address lists of the aliases, the tables of
-- rpxy-trusted-proxies/src/snapshots.rs, are an argument.
pub mod Resolution
use rust_rpxy.Common.{
  Bool, true, false, Option, none, some, List, [], ◌∷◌, ◌++◌, if◌then◌else◌, any, traverse, ◌>>=◌,
  Bytes, bytes, bytes_eq, to_ascii_lowercase,
}
use rust_rpxy.HeaderText.{trim}

pub data BuiltinTrustedProxyAlias : Type 0 where
  cloudflare cloudfront fastly : BuiltinTrustedProxyAlias

-- `IpNet` with its equality and `from_str`, and the CIDR strings of an alias.
pub record IpNets (N : Type 0) : Type 0 where
  pub net_eq : N → N → Bool
  pub parse_net : Bytes → Option N
  pub cidr_strings : BuiltinTrustedProxyAlias → List Bytes

abbrev pub alias_eq : BuiltinTrustedProxyAlias → BuiltinTrustedProxyAlias → Bool
alias_eq cloudflare cloudflare = true
alias_eq cloudfront cloudfront = true
alias_eq fastly fastly = true
alias_eq _ _ = false

alias_of : Bytes → Option BuiltinTrustedProxyAlias
alias_of name =
    if bytes_eq name (bytes "cloudflare")
    then some cloudflare
    else (if bytes_eq name (bytes "cloudfront")
        then some cloudfront
        else (if bytes_eq name (bytes "fastly") then some fastly else none))

-- `BuiltinTrustedProxyAlias::from_str`.
unfoldable pub parse_alias : Bytes → Option BuiltinTrustedProxyAlias
unfolding alias_of
parse_alias value = alias_of (to_ascii_lowercase (trim value))

pub data TrustedProxyEntry (N : Type 0) : Type 0 where
  cidr : N → TrustedProxyEntry N
  alias : BuiltinTrustedProxyAlias → TrustedProxyEntry N

pub record ResolutionReport (N : Type 0) : Type 0 where
  pub cidrs : List N
  pub expanded_aliases : List BuiltinTrustedProxyAlias

module _ {N : Type 0} (nets : IpNets N) where
  unfoldable pub entry_or : Bytes → Option BuiltinTrustedProxyAlias → Option (TrustedProxyEntry N)
  entry_or value (some a) = some (alias a)
  entry_or value none = nets.parse_net value >>= λ n. some (cidr n)

  -- `TrustedProxyEntry::from_str`.
  unfoldable pub parse_entry : Bytes → Option (TrustedProxyEntry N)
  unfolding entry_or
  parse_entry value = entry_or value (parse_alias value)

  unfoldable pub parse_alias_cidrs : BuiltinTrustedProxyAlias → Option (List N)
  parse_alias_cidrs a = traverse nets.parse_net (nets.cidr_strings a)

  -- `seen` has the members of `cidrs`.
  abbrev pub push_new : List N → N → List N
  push_new cidrs n = if any (λ m. nets.net_eq n m) cidrs then cidrs else cidrs ++ n ∷ []

  abbrev pub push_all : List N → List N → List N
  push_all cidrs [] = cidrs
  push_all cidrs (n ∷ ns) = push_all (push_new cidrs n) ns

  unfoldable pub add_alias :
      List BuiltinTrustedProxyAlias → BuiltinTrustedProxyAlias → List BuiltinTrustedProxyAlias
  add_alias aliases a = if any (alias_eq a) aliases then aliases else aliases ++ a ∷ []

  unfoldable pub add_entry : ResolutionReport N → TrustedProxyEntry N → Option (ResolutionReport N)
  unfolding parse_alias_cidrs add_alias
  add_entry report (cidr n) = some (record report { cidrs = push_new report.cidrs n })
  add_entry report (alias a) = parse_alias_cidrs a >>= λ ns. some (record {
    cidrs = push_all report.cidrs ns;
    expanded_aliases = add_alias report.expanded_aliases a;
  })

  unfoldable pub resolve_from : ResolutionReport N → List Bytes → Option (ResolutionReport N)
  unfolding add_entry parse_entry
  resolve_from report [] = some report
  resolve_from report (raw ∷ entries) = parse_entry raw >>= λ entry.
      add_entry report entry >>= λ report'. resolve_from report' entries

  unfoldable pub resolve_trusted_proxy_entries : List Bytes → Option (ResolutionReport N)
  unfolding resolve_from
  resolve_trusted_proxy_entries entries =
      resolve_from (record { cidrs = []; expanded_aliases = [] }) entries
