-- ===== src/Control.antt =====
-- crates/dap-core/src/control_client.rs: the client that drives a running session.
pub mod Channel
pub mod Waits
pub mod Calls
pub mod Inbox
pub mod Events
pub mod Drain
pub mod Session
pub mod Requests
pub mod Port
pub mod Bytes
pub mod Replay
pub mod Loss
pub mod Numbers
pub mod Breakpoints
pub mod Config
pub mod Init
mod Examples
