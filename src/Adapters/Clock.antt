-- ===== src/Adapters/Clock.antt =====
-- src/adapters/clock.rs: the minute, the sun and the schedules as events.
mod Defs
pub mod Fire
pub mod Ticks
unfoldable pub use Defs.{
  wall_ms, compute_window, sun_up, fire_loop, fire_schedule, fire_each, fire_due_schedules,
  fired_leb, tick, next_wake, with_schedules, rem_minute, report_minute, dispatch, least_delay,
}
pub use Defs.{
  Almanac, ScheduleState, SunWindow, ClockAdapter, new, distance, fuel_of, time_reached, cron_next,
}
