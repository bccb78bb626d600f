-- ===== src/Compile/Typed/Defs.antt =====
-- The static checks of src/compile/lower.rs, as predicates on what it emits.
use domiform.Base.{ℕ, ◌≤◌, ◌<◌, ◌^◌, ◌≡◌, ◌⊎◌, true, Option, none, some, In, length, get_elem?}
use domiform.Base.Int.{pos}
use domiform.Base.Assoc.{lookup}
use domiform.Base.Text.{Text, text_eq}
use domiform.Model.Capability.{
  CapabilityKind, DeviceId, ActionId, SceneId, ScheduleId, Millis, is_bool, is_numeric,
}
use domiform.Model.Command.{
  Command, set_switch, toggle_switch, set_brightness, decrease_brightness, increase_brightness,
  set_color, set_color_temperature, activate_scene, schedule_timer, cancel_timer, send_ir_code,
}
use domiform.Rule.Trigger.{Trigger}
use domiform.Rule.Condition.{
  Condition, Conditions, nil, cons, always, negation, conjunction, disjunction, bool_equals,
  compare, color_equals,
}
use domiform.Compile.Lowering.{DeviceDef, DeviceEvent, Scope, declares}

-- How `resolve` fills the tables: names stand for devices, and the clock comes after the devices.
pub record IsScope (scope : Scope) : Type 0 where
  pub device_below :
      (label : Text) (id : DeviceId)
      → lookup label scope.device_index ≡ some id
      → id < length scope.devices
  pub clock_last : scope.clock_device ≡ length scope.devices

abbrev pub IsByte : ℕ → Type 0
IsByte n = n < 256

abbrev pub IsU64 : ℕ → Type 0
IsU64 n = n < 2 ^ 64

abbrev pub IsTransition : Option Millis → Type 0
IsTransition none = Unit
IsTransition (some after) = IsU64 after

module _ (scope : Scope) where
  abbrev pub Declares : DeviceId → CapabilityKind → Type 0
  Declares device k = declares scope device k ≡ true

  abbrev pub Emits : DeviceId → ActionId → Type 0
  Emits device action =
      (dev : DeviceDef) × (get_elem? scope.devices device ≡ some dev)
      × (e : DeviceEvent) × In e dev.events
      × (e.id ≡ action)

  abbrev pub IsScene : SceneId → Type 0
  IsScene scene = (label : Text) × (lookup label scope.scene_index ≡ some scene)

  abbrev pub IsSchedule : ScheduleId → Type 0
  IsSchedule schedule = (label : Text) × (lookup label scope.schedule_index ≡ some schedule)

  abbrev pub IsTypedTrigger : Trigger → Type 0
  IsTypedTrigger (Trigger.action device action) = Emits device action
  IsTypedTrigger (Trigger.changed device k to) = Declares device k × (is_bool k ≡ true)
  IsTypedTrigger (Trigger.crosses device k bound dir) = Declares device k × (is_numeric k ≡ true)
  IsTypedTrigger (Trigger.reports device k) = Declares device k
  IsTypedTrigger (Trigger.timer key) = Unit
  IsTypedTrigger (Trigger.time schedule) = IsSchedule schedule
  IsTypedTrigger (Trigger.command_failed none) = Unit
  IsTypedTrigger (Trigger.command_failed (some device)) = device < length scope.devices

  abbrev mutual
    pub IsTypedCondition : Condition → Type 0
    IsTypedCondition always = Unit
    IsTypedCondition (negation c) = IsTypedCondition c
    IsTypedCondition (conjunction cs) = IsTypedConditions cs
    IsTypedCondition (disjunction cs) = IsTypedConditions cs
    IsTypedCondition (bool_equals device k value) =
        ((device ≡ scope.clock_device) × (k ≡ CapabilityKind.sun_up))
        ⊎ (Declares device k × (is_bool k ≡ true))
    IsTypedCondition (compare device k op value) =
        ((device ≡ scope.clock_device)
          × (k ≡ CapabilityKind.time_of_day)
          × (minute : ℕ) × (value ≡ pos minute)
          × (minute < 1440))
        ⊎ (Declares device k × (is_numeric k ≡ true))
    IsTypedCondition (color_equals device r g b) =
        Declares device CapabilityKind.color × IsByte r × IsByte g × IsByte b

    pub IsTypedConditions : Conditions → Type 0
    IsTypedConditions nil = Unit
    IsTypedConditions (cons c cs) = IsTypedCondition c × IsTypedConditions cs

  abbrev pub IsTypedCommand : Command → Type 0
  IsTypedCommand (set_switch device on) = Declares device CapabilityKind.switch
  IsTypedCommand (toggle_switch device) = Declares device CapabilityKind.switch
  IsTypedCommand (set_brightness device value transition) =
      Declares device CapabilityKind.brightness × IsTransition transition
  IsTypedCommand (decrease_brightness device value) = Declares device CapabilityKind.brightness
  IsTypedCommand (increase_brightness device value) = Declares device CapabilityKind.brightness
  IsTypedCommand (set_color device r g b transition) =
      Declares device CapabilityKind.color
      × IsByte r
      × IsByte g
      × IsByte b
      × IsTransition transition
  IsTypedCommand (set_color_temperature device mireds transition) =
      Declares device CapabilityKind.color_temperature
      × (100 ≤ mireds)
      × (mireds ≤ 1000)
      × IsTransition transition
  IsTypedCommand (activate_scene scene) = IsScene scene
  IsTypedCommand (schedule_timer key after) = IsU64 after
  IsTypedCommand (cancel_timer key) = Unit
  IsTypedCommand (send_ir_code device code) = Declares device CapabilityKind.ir_transmitter
