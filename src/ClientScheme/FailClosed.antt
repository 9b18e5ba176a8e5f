-- ===== src/ClientScheme/FailClosed.antt =====
-- When the client-visible scheme is `https`.
use rust_rpxy.Common.{◌≡◌, ◌⊎◌, true, Option, none, some, Bytes, bytes}
use rust_rpxy.HeaderText.{eq_ignore_ascii_case}
use rust_rpxy.HeaderMap.{HeaderMap, HeaderValues}
use rust_rpxy.ClientScheme.Reading.{XfpSays, XfpSilent}
use rust_rpxy.ClientScheme.Naming.{ForwardedSays}

-- A readable `X-Forwarded-Proto` says https, or it is readable without a scheme and `Forwarded` says so.
abbrev pub ClaimsHttps : HeaderValues → HeaderMap → Type 0
ClaimsHttps values headers =
    (s : Bytes) × (XfpSays values headers s
      ⊎ XfpSilent values headers × ForwardedSays values headers s)
    × (eq_ignore_ascii_case s (bytes "https") ≡ true)

-- The same of the two results.
abbrev Claimed : Option (Option Bytes) → Option (Option Bytes) → Type 0
Claimed xfp fwd =
    (s : Bytes) × ((xfp ≡ some (some s)) ⊎ (xfp ≡ some none) × (fwd ≡ some (some s)))
    × (eq_ignore_ascii_case s (bytes "https") ≡ true)
