-- ===== src/Mux.antt =====
-- crates/protocol-mux: N clients share one upstream connection.
pub mod Client
pub mod Message
pub mod Remapper
pub mod Cancel
pub mod Tracker
pub mod Breakpoint
pub mod Cache
pub mod Session
pub mod Multiplexer
mod Examples
