-- ===== src/Compile/Build.antt =====
-- `build_engine_full` of src/compile/mod.rs: the graph to a runnable engine.
pub mod Engine
pub mod Groups
pub mod Slots
pub mod Binding
pub mod Routes
