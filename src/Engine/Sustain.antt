-- ===== src/Engine/Sustain.antt =====
-- The sustained (`for:`) timers of src/engine.rs and the predicates they wait on.
pub mod Pending
pub mod Held
pub mod Timely
