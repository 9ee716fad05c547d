-- ===== src/Plugin.antt =====
-- crates/dap-plugin-api: what a plugin manifest says of a launch.
pub mod Template
pub mod Launch
