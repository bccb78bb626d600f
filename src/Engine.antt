-- ===== src/Engine.antt =====
-- src/engine.rs: the single-threaded event loop.
pub mod Parts
pub mod Intent
pub mod Dispatch
pub mod Timers
pub mod Loop
pub mod Drive
pub mod Host
pub mod Post
pub mod Steady
pub mod Replay
pub mod Retries
pub mod Sustain
pub mod Scenes
pub mod Depths
pub mod Requests
pub mod Transient
pub mod Cascade
