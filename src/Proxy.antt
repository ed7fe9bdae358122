-- ===== src/Proxy.antt =====
-- crates/cng-core/src/proxy.rs: the relay.
pub mod Header
pub mod Errors
pub mod Tunnel
pub mod Runtime
pub mod Connect
pub mod Client
pub mod Health
pub mod Rewrite
mod Examples
