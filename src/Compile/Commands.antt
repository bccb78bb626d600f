-- ===== src/Compile/Commands.antt =====
-- `command` and `for_duration` of src/compile/lower.rs.
use domiform.Base.{
  ℕ, ◌/◌, ◌&&◌, ◌||◌, Option, none, some, List, [], ◌∷◌, ◌++◌, if◌then◌else◌, ◌==◌, leb, min,
}
use domiform.Base.Assoc.{lookup}
use domiform.Base.Text.{Text, bytes, text_eq, decimal}
use domiform.Model.Capability.{CapabilityKind, Millis}
use domiform.Model.Command.{
  Command, set_switch, toggle_switch, set_brightness, decrease_brightness, increase_brightness,
  set_color, set_color_temperature, activate_scene, schedule_timer, cancel_timer, send_ir_code,
}
use domiform.Rule.Trigger.{Trigger, watched}
use domiform.Compile.Ast.{Yaml, RawSetColorTemperature}
use domiform.Compile.Scalars.{duration_of}
use domiform.Compile.Conditions.{parse_color, dash}
use domiform.Compile.Lowering.{
  Scope, Lowering, pure, ◌>>=◌, ◌>>◌, attempt, fail, expect, single_entry, as_name, payload,
  resolve_device, require_cap, note_used_scene, note_scheduled_key, note_referenced_key,
}

module _ (context : Text) where
  unfoldable pub parse_duration : Text → Lowering Millis
  parse_duration s =
      expect context (duration_of s) (bytes "E_BAD_DURATION")
        (bytes "invalid duration '" ++ s ++ bytes "' (expected e.g. 30s, 10m, 1h)")

  unfoldable pub parse_transition : Option Text → Lowering (Option Millis)
  parse_transition none = pure none
  parse_transition (some s) = do after ← parse_duration s; pure (some after)

  abbrev bad_color_temp : {A : Type 0} → Text → Lowering A
  bad_color_temp message = fail context (bytes "E_BAD_COLOR_TEMP") message

  -- `min` is for the cast to u16.
  unfoldable pub mireds_of : Option ℕ → Option ℕ → Lowering ℕ
  mireds_of (some k) (some m) =
      bad_color_temp (bytes "set_color_temperature must set exactly one of `kelvin` or `mireds`")
  mireds_of none none =
      bad_color_temp (bytes "set_color_temperature needs one of `kelvin` or `mireds`")
  mireds_of (some k) none =
      if leb 1000 k && leb k 10000
      then pure (min (1000000 / k) 65535)
      else bad_color_temp (
          bytes "kelvin "
          ++ decimal k
          ++ bytes " out of range (expected 1000"
          ++ dash
          ++ bytes "10000)")
  mireds_of none (some m) =
      if leb 100 m && leb m 1000
      then pure m
      else bad_color_temp (
          bytes "mireds "
          ++ decimal m
          ++ bytes " out of range (expected 100"
          ++ dash
          ++ bytes "1000)")

  unfoldable pub parse_color_temperature : RawSetColorTemperature → Lowering ℕ
  parse_color_temperature raw = mireds_of raw.kelvin raw.mireds

  unfoldable pub for_duration : Text → Trigger → Lowering Millis
  for_duration raw t = elim (watched t) [
    | none ↦
        fail context (bytes "E_FOR_UNSUPPORTED")
          (bytes "'for:' is only valid on an edge trigger (`changed` or `crosses`)")
    | some _ ↦ parse_duration raw
  ]

abbrev pub keep : {A : Type 0} → Option A → List A → List A
keep none as' = as'
keep (some a) as' = a ∷ as'

module _ (y : Yaml) (scope : Scope) (context : Text) where
  unfoldable pub switch_command : Text → y.Value → Lowering Command
  switch_command verb v = do
    label ← as_name y context v verb
    device ← resolve_device scope context label
    require_cap scope context device label CapabilityKind.switch verb
    pure (set_switch device (verb == bytes "turn_on"))

  unfoldable pub toggle_command : y.Value → Lowering Command
  toggle_command v = do
    label ← as_name y context v (bytes "toggle")
    device ← resolve_device scope context label
    require_cap scope context device label CapabilityKind.switch (bytes "toggle")
    pure (toggle_switch device)

  unfoldable pub brightness_command : y.Value → Lowering Command
  brightness_command v = do
    b ← payload y context y.set_brightness v (bytes "set_brightness")
    device ← resolve_device scope context b.device
    require_cap scope context device b.device CapabilityKind.brightness (bytes "set_brightness")
    transition ← parse_transition context b.transition
    pure (set_brightness device b.value transition)

  unfoldable pub decrease_command : y.Value → Lowering Command
  decrease_command v = do
    b ← payload y context y.decrease_brightness v (bytes "decrease_brightness")
    device ← resolve_device scope context b.device
    require_cap scope context device b.device CapabilityKind.brightness
        (bytes "decrease_brightness")
    pure (decrease_brightness device b.value)

  unfoldable pub increase_command : y.Value → Lowering Command
  increase_command v = do
    b ← payload y context y.increase_brightness v (bytes "increase_brightness")
    device ← resolve_device scope context b.device
    require_cap scope context device b.device CapabilityKind.brightness
        (bytes "increase_brightness")
    pure (increase_brightness device b.value)

  unfoldable pub color_command : y.Value → Lowering Command
  color_command v = do
    c ← payload y context y.set_color v (bytes "set_color")
    device ← resolve_device scope context c.device
    require_cap scope context device c.device CapabilityKind.color (bytes "set_color")
    (r, g, b) ← parse_color y context c.color
    transition ← parse_transition context c.transition
    pure (set_color device r g b transition)

  unfoldable pub temperature_command : y.Value → Lowering Command
  temperature_command v = do
    c ← payload y context y.set_color_temperature v (bytes "set_color_temperature")
    device ← resolve_device scope context c.device
    require_cap scope context device c.device CapabilityKind.color_temperature
        (bytes "set_color_temperature")
    mireds ← parse_color_temperature context c
    transition ← parse_transition context c.transition
    pure (set_color_temperature device mireds transition)

  unfoldable pub scene_command : y.Value → Lowering Command
  scene_command v = do
    label ← as_name y context v (bytes "activate_scene")
    scene ←
        expect context (lookup label scope.scene_index) (bytes "E_UNKNOWN_SCENE")
          (bytes "unknown scene '" ++ label ++ bytes "'")
    note_used_scene scene
    pure (activate_scene scene)

  unfoldable pub timer_command : y.Value → Lowering Command
  timer_command v = do
    s ← payload y context y.schedule_timer v (bytes "schedule_timer")
    note_scheduled_key s.key
    after ← parse_duration context s.after
    pure (schedule_timer s.key after)

  unfoldable pub cancel_command : y.Value → Lowering Command
  cancel_command v = do
    key ← as_name y context v (bytes "cancel_timer")
    note_referenced_key key
    pure (cancel_timer key)

  unfoldable pub ir_command : y.Value → Lowering Command
  ir_command v = do
    ir ← payload y context y.send_ir_code v (bytes "send_ir_code")
    device ← resolve_device scope context ir.device
    require_cap scope context device ir.device CapabilityKind.ir_transmitter (bytes "send_ir_code")
    pure (send_ir_code device ir.code)

  unfoldable pub command_of : Text → y.Value → Lowering Command
  command_of verb v =
      if verb == bytes "turn_on" || verb == bytes "turn_off"
      then switch_command verb v
      else if verb == bytes "toggle"
      then toggle_command v
      else if verb == bytes "set_brightness"
      then brightness_command v
      else if verb == bytes "decrease_brightness"
      then decrease_command v
      else if verb == bytes "increase_brightness"
      then increase_command v
      else if verb == bytes "set_color"
      then color_command v
      else if verb == bytes "set_color_temperature"
      then temperature_command v
      else if verb == bytes "activate_scene"
      then scene_command v
      else if verb == bytes "schedule_timer"
      then timer_command v
      else if verb == bytes "cancel_timer"
      then cancel_command v
      else if verb == bytes "send_ir_code"
      then ir_command v
      else fail context (bytes "E_UNKNOWN_COMMAND") (bytes "unknown command '" ++ verb ++ bytes "'")

  unfoldable pub command : y.Value → Lowering Command
  command v = do (verb, body) ← single_entry y context v (bytes "command"); command_of verb body

  -- `filter_map` drops what is refused.
  unfoldable pub commands : List y.Value → Lowering (List Command)
  commands [] = pure []
  commands (v ∷ vs) = do c ← attempt (command v); rest ← commands vs; pure (keep c rest)
