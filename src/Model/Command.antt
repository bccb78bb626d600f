-- ===== src/Model/Command.antt =====
-- The second half of src/model.rs: intents, timers' keys, commands and events.
use domiform.Base.{ℕ, Bool, Option, none, some}
use domiform.Base.Int.{ℤ}
use domiform.Base.Text.{Text}
use domiform.Model.Capability.{
  CapabilityKind, CapabilityState, DeviceId, SceneId, ScheduleId, ActionId, Millis, kind,
}

pub data Desired : Type 0 where
  set : CapabilityState → Desired
  toggle : Desired
  adjust_brightness : ℤ → Desired  -- i8
  send_ir : Text → Desired

unfoldable pub desired_kind : Desired → CapabilityKind
unfolding kind
desired_kind (Desired.set state) = kind state
desired_kind Desired.toggle = CapabilityKind.switch
desired_kind (Desired.adjust_brightness _) = CapabilityKind.brightness
desired_kind (Desired.send_ir _) = CapabilityKind.ir_transmitter

abbrev pub TimerKey : Type 0
TimerKey = Text

pub data Command : Type 0 where
  set_switch : (device : DeviceId) (on : Bool) → Command
  toggle_switch : (device : DeviceId) → Command
  set_brightness : (device : DeviceId) (value : ℕ) (transition : Option Millis) → Command
  decrease_brightness : (device : DeviceId) (value : ℕ) → Command
  increase_brightness : (device : DeviceId) (value : ℕ) → Command
  set_color : (device : DeviceId) (r g b : ℕ) (transition : Option Millis) → Command
  set_color_temperature : (device : DeviceId) (mireds : ℕ) (transition : Option Millis) → Command
  activate_scene : (scene : SceneId) → Command
  schedule_timer : (key : TimerKey) (after : Millis) → Command
  cancel_timer : (key : TimerKey) → Command
  send_ir_code : (device : DeviceId) (code : Text) → Command

unfoldable pub target_device : Command → Option DeviceId
target_device (set_switch device _) = some device
target_device (toggle_switch device) = some device
target_device (set_brightness device _ _) = some device
target_device (decrease_brightness device _) = some device
target_device (increase_brightness device _) = some device
target_device (set_color device _ _ _ _) = some device
target_device (set_color_temperature device _ _) = some device
target_device (send_ir_code device _) = some device
target_device (activate_scene _) = none
target_device (schedule_timer _ _) = none
target_device (cancel_timer _) = none

pub data Event : Type 0 where
  action : (device : DeviceId) (action : ActionId) → Event
  state_reported : (device : DeviceId) (state : CapabilityState) → Event
  requested_change : (device : DeviceId) (desired : Desired) → Event
  requested_scene : (scene : SceneId) → Event
  time_reached : (schedule : ScheduleId) → Event
  timer_elapsed : (key : TimerKey) → Event
  command_failed : (command : Command) (reason : Text) (attempts : ℕ) → Event
