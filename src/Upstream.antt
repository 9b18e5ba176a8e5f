-- ===== src/Upstream.antt =====
-- rpxy-lib/src/backend/upstream.rs: one upstream as the load balancers see it.
use rust_rpxy.Common.{Bool, true, Option, none, some, Bytes, is_some}
use rust_rpxy.Health.{UpstreamHealth}

-- `uri` is the rendered form of the `hyper::Uri`. `health` is a reading of the shared flag.
pub record Upstream : Type 0 where
  pub uri : Bytes
  pub host_header : Option Bytes
  pub health : Option UpstreamHealth

flag : Option UpstreamHealth → Bool
flag none = true
flag (some h) = h.healthy

unfoldable pub is_healthy : Upstream → Bool
unfolding flag
is_healthy u = flag u.health

unfoldable pub has_health_state : Upstream → Bool
has_health_state u = is_some u.health
