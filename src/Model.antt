-- ===== src/Model.antt =====
-- The canonical vocabulary of src/ids.rs and src/model.rs: identifiers, capabilities, intents, events
-- and commands.
pub mod Capability
pub mod Command
pub mod Names
pub mod Shapes
