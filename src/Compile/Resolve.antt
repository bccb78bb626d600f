-- ===== src/Compile/Resolve.antt =====
-- src/compile/resolve.rs: raw configuration to the resolved graph.
pub mod Adapters
pub mod Devices
pub mod Schedules
pub mod Rules
pub mod Lints
pub mod Config
