-- ===== src/Compile.antt =====
-- src/compile/: configuration to a runnable engine.
pub mod Diagnostic
pub mod Ast
pub mod Scalars
pub mod Lowering
pub mod Triggers
pub mod Conditions
pub mod Commands
pub mod Ensures
pub mod Typed
pub mod Plugins
pub mod Resolve
pub mod Sound
pub mod Returns
pub mod Total
pub mod Fuel
pub mod Build
