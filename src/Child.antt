-- ===== src/Child.antt =====
-- crates/dap-core/src/child_session and reverse_request.rs: what the proxy does with the requests of an
-- adapter, and the sessions that it starts for them.
pub mod Outcome
pub mod Value
pub mod Profile
pub mod Template
pub mod Resolve
pub mod Handler
pub mod Reverse
pub mod Bridge
mod Examples
