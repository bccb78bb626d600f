-- ===== src/Engine/Cascade.antt =====
-- The backstop of src/engine.rs against feedback cascades.
pub mod Live
pub mod Sends
pub mod Timed
pub mod Drains
pub mod Idle
