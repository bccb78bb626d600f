-- ===== src/Engine/Intent.antt =====
-- The intents of src/engine.rs: what a request becomes, and how relative commands are resolved.
use domiform.Base.{ℕ, ◌+◌, ◌%◌, not, Option, none, some, if◌then◌else◌}
use domiform.Base.Int.{ℤ, pos, pos_part, neg_part, ltb_ℤ, ◌+ℤ◌, ◌-ℤ◌, clamp_ℤ}
use domiform.State
use domiform.State.{StateStore}
use domiform.Model.Capability.{CapabilityKind, CapabilityState, DeviceId}
use domiform.Model.Command.{Desired, Command}

unfoldable pub command_for_state : DeviceId → CapabilityState → Option Command
command_for_state device (CapabilityState.switch on) = some (Command.set_switch device on)
command_for_state device (CapabilityState.brightness value) =
    some (Command.set_brightness device value none)
command_for_state device (CapabilityState.color r g b) = some (Command.set_color device r g b none)
command_for_state device (CapabilityState.color_temperature mireds) =
    some (Command.set_color_temperature device mireds none)
command_for_state device _ = none

-- `unsigned_abs`
abbrev pub unsigned_abs : ℤ → ℕ
unsigned_abs z = pos_part z + neg_part z

unfoldable pub command_for_requested_change : DeviceId → Desired → Option Command
unfolding command_for_state
command_for_requested_change device (Desired.set state) = command_for_state device state
command_for_requested_change device Desired.toggle = some (Command.toggle_switch device)
command_for_requested_change device (Desired.adjust_brightness delta) =
    if ltb_ℤ (pos 0) delta
    then some (Command.increase_brightness device (unsigned_abs delta))
    else if ltb_ℤ delta (pos 0)
    then some (Command.decrease_brightness device (unsigned_abs delta))
    else none
command_for_requested_change device (Desired.send_ir code) = some (Command.send_ir_code device code)

-- `.clamp(0, 100) as u8`
abbrev pub level : ℤ → ℕ
level z = pos_part (clamp_ℤ z (pos 0) (pos 100)) % 256

unfoldable pub resolve_implicit_state_command : StateStore → Command → Command
resolve_implicit_state_command s (Command.toggle_switch device) = elim (State.switch_is s device) [
  | some on ↦ Command.set_switch device (not on)
  | none ↦ Command.toggle_switch device
]
resolve_implicit_state_command s (Command.decrease_brightness device value) =
    elim (State.num_value s device CapabilityKind.brightness) [
      | some brightness ↦ Command.set_brightness device (level (brightness -ℤ pos value)) none
      | none ↦ Command.decrease_brightness device value
    ]
resolve_implicit_state_command s (Command.increase_brightness device value) =
    elim (State.num_value s device CapabilityKind.brightness) [
      | some brightness ↦ Command.set_brightness device (level (brightness +ℤ pos value)) none
      | none ↦ Command.increase_brightness device value
    ]
resolve_implicit_state_command s cmd = cmd
