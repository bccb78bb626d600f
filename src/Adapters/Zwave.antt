-- ===== src/Adapters/Zwave.antt =====
-- src/adapters/zwavejs.rs: the translation between commands and value reports, and the adapter around it.
mod Levels
mod Defs
pub mod Index
pub mod Confirm
pub mod Session
pub mod Reports
unfoldable pub use Levels.{pct_to_zwave}
unfoldable pub use Defs.{command_to_set_value, update_to_events, new, dispatch, tick}
pub use Defs.{
  Wire, IsWire, DeviceKind, from_capabilities, ValueUpdate, SetValue, ZwaveClient, ZwaveAdapter,
}
