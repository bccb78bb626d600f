-- ===== src/Compile/Typed.antt =====
-- What src/compile/lower.rs checks of the configuration, as types of triggers, conditions and commands.
pub mod Defs
pub mod References
pub mod Triggers
pub mod Conditions
pub mod Commands
