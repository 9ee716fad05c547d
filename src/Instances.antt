-- ===== src/Instances.antt =====
-- crates/instance-manager: the registry of concurrent instances and their life cycle.
pub mod State
pub mod Handle
pub mod Manager
mod Examples
