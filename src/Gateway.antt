-- ===== src/Gateway.antt =====
-- crates/protocol-gateway: the registry of plugins and the router over it.
pub mod Registry
pub mod Static
pub mod Launch
mod Examples
