-- ===== src/Adapters.antt =====
-- src/adapters: the outcome of a dispatch, level conversion, and the adapters that the program itself
-- implements in full.
pub mod Outcome
pub mod Level
pub mod Scheduler
pub mod Echo
pub mod Clock
pub mod Zwave
