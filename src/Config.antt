-- ===== src/Config.antt =====
-- rpxy-bin/src/config/toml.rs: the validation of the configuration and what it is built into. The text of
-- the file is already deserialized. Text is ASCII here, save where `is_ascii` is asked; an error is
-- `none`, its message is left out. A `HashMap` is the list of its entries in some order.
pub mod BodySize
pub mod ServerNames
pub mod Sockets
pub mod HealthChecks
pub mod Apps
pub mod Proxy
pub mod Settings
pub mod Sizes
pub mod Hostnames
pub mod Applications
pub mod Listeners
pub mod Validated
