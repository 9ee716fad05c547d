-- ===== src/Dap.antt =====
-- crates/dap-core: what the control plane derives from the traffic of a session.
pub mod Attach
pub mod Execution
pub mod Watch
pub mod Navigation
pub mod Policy
pub mod Skip
pub mod HitCount
pub mod SourcePath
mod Examples
