-- ===== src/Wire.antt =====
-- crates/dap-protocol: messages and their framing on a byte stream.
pub mod Message
pub mod Transport
pub mod Client
mod Examples
