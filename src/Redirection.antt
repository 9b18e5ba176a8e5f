-- ===== src/Redirection.antt =====
-- The redirection to HTTPS: rpxy-lib/src/message_handler/synthetic_response.rs.
use rust_rpxy.Common.{
  ℕ, Option, none, some, [], ◌++◌, if◌then◌else◌, ◌==◌, unwrap_or, ◌>>=◌, Bytes, bytes,
}
use rust_rpxy.HeaderMap.{HeaderValues, insert}
use rust_rpxy.ForwardedEntry.{decimal}
use rust_rpxy.RequestOps.{Uri, https}
use rust_rpxy.Route.{ServerName}
use rust_rpxy.Generation.{Uris}
use rust_rpxy.Responding.{Response}

-- The port of HTTPS is left out.
abbrev pub redirection_authority : Bytes → Option ℕ → Bytes
redirection_authority server_name none = server_name
redirection_authority server_name (some p) =
    if p == 443 then server_name else server_name ++ bytes ":" ++ decimal p

-- The error is `FailedToRedirect`.
unfoldable pub secure_redirection_response :
    HeaderValues → Uris → ServerName → Option ℕ → Uri → Option Response
secure_redirection_response values uris server_name tls_port uri = do
  dest_uri ←
      uris.build https (redirection_authority server_name.inner tls_port)
        (unwrap_or uri.path_and_query [])
  location ← values.from_str (uris.to_string dest_uri)
  some (record { status = 301; headers = insert (λ name. []) (bytes "location") location })
