-- ===== src/Rule.antt =====
-- src/rule.rs: triggers, three-valued truth, conditions and rules.
pub mod Truth
pub mod Trigger
pub mod Condition
pub mod Rules
pub mod Edges
pub mod Kleene
