-- ===== src/Compile/Sound.antt =====
-- What a configuration that src/compile/resolve.rs accepts promises.
pub mod Tables
pub mod Devices
pub mod Schedules
pub mod Rules
pub mod Lints
pub mod Config
