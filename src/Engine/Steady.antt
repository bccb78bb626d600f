-- ===== src/Engine/Steady.antt =====
-- Invariants of the loop of src/engine.rs, from what its small steps keep.
pub mod Sends
pub mod React
pub mod Events
pub mod Plain
