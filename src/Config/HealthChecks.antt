-- ===== src/Config/HealthChecks.antt =====
-- The health check of a reverse proxy entry: `build_health_check_config` and
-- `validate_lb_health_check` of rpxy-bin/src/config/toml.rs, with the types of rpxy-lib/src/globals.rs
-- and the defaults of rpxy-lib/src/constants.rs. A duration is its seconds.
use rust_rpxy.Common.{
  ℕ, Bool, true, false, not, ◌&&◌, Option, none, some, if◌then◌else◌, ltb, leb, is_some, unwrap_or,
  ensure, ◌>>=◌, ◌>>◌, Bytes, bytes, bytes_eq, starts_with,
}

pub data HealthCheckType : Type 0 where
  tcp : HealthCheckType
  http : Bytes → ℕ → HealthCheckType

pub record HealthCheckConfig : Type 0 where
  pub check_type : HealthCheckType
  pub interval : ℕ
  pub timeout : ℕ
  pub unhealthy_threshold : ℕ
  pub healthy_threshold : ℕ

pub record HealthCheckDetailOption : Type 0 where
  pub check_type : Option Bytes
  pub interval : Option ℕ
  pub timeout : Option ℕ
  pub unhealthy_threshold : Option ℕ
  pub healthy_threshold : Option ℕ
  pub path : Option Bytes
  pub expected_status : Option ℕ

pub data HealthCheckOption : Type 0 where
  enabled : Bool → HealthCheckOption
  config : HealthCheckDetailOption → HealthCheckOption

abbrev pub default_health_check : HealthCheckConfig
default_health_check = record {
  check_type = tcp;
  interval = 10;
  timeout = 5;
  unhealthy_threshold = 3;
  healthy_threshold = 2;
}

http_check : HealthCheckDetailOption → Option HealthCheckType
http_check detail = do
  path ← detail.path
  ensure (starts_with path (bytes "/"))
  some (http path (unwrap_or detail.expected_status 200))

build_check_type : HealthCheckDetailOption → Option HealthCheckType
unfolding http_check
build_check_type detail =
    let name = unwrap_or detail.check_type (bytes "tcp") in
    if bytes_eq name (bytes "tcp")
    then some tcp
    else (if bytes_eq name (bytes "http") then http_check detail else none)

unfoldable pub build_detail : HealthCheckDetailOption → Option HealthCheckConfig
unfolding build_check_type
build_detail detail = do
  check_type ← build_check_type detail
  let interval = unwrap_or detail.interval 10
  let timeout = unwrap_or detail.timeout 5
  ensure (ltb timeout interval)
  let unhealthy_threshold = unwrap_or detail.unhealthy_threshold 3
  let healthy_threshold = unwrap_or detail.healthy_threshold 2
  ensure (leb 1 unhealthy_threshold)
  ensure (leb 1 healthy_threshold)
  some (record {
    check_type = check_type;
    interval = interval;
    timeout = timeout;
    unhealthy_threshold = unhealthy_threshold;
    healthy_threshold = healthy_threshold;
  })

unfoldable pub build_health_check_config : HealthCheckOption → Option (Option HealthCheckConfig)
unfolding build_detail
build_health_check_config (enabled false) = some none
build_health_check_config (enabled true) = some (some default_health_check)
build_health_check_config (config detail) = build_detail detail >>= λ c. some (some c)

-- `true` is `Ok`.
unfoldable pub validate_lb_health_check : Option Bytes → Option HealthCheckConfig → Bool
validate_lb_health_check none health_check = true
validate_lb_health_check (some load_balance) health_check =
    not (bytes_eq load_balance (bytes "primary_backup") && not (is_some health_check))
