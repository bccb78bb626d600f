-- ===== src/Adapters/Scheduler.antt =====
-- src/adapters/scheduler.rs: pending timers by name, with absolute fire times.
mod Defs
pub mod Order
pub mod Tick
pub mod Wake
unfoldable pub use Defs.{
  schedule, cancel, dispatch, tick, next_wake, entry_leb, due, is_due, remove_all, soonest,
}
pub use Defs.{SchedulerAdapter}
