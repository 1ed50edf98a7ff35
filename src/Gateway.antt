-- ===== src/Gateway.antt =====
-- The auth gateway of crates/cuartel-core/src/auth_gateway: its rules, its firewall and its proxy.
pub mod Ip
pub mod Firewall
pub mod Blocks
pub mod BlocksV6
pub mod Rules
pub mod Http
pub mod Proxy
pub mod Headers
pub mod Outcome
pub mod Guard
pub mod Policy
mod Tests
