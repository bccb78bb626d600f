-- ===== src/State.antt =====
-- src/state.rs: the state store, a map from (device, capability) to the last reported state.
mod Defs
pub mod Keyed
unfoldable pub use Defs.{empty, set, get, bool_value, num_value, switch_is, iter}
pub use Defs.{StateStore, same_slot, get-set, get-empty}
