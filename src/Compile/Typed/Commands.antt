-- ===== src/Compile/Typed/Commands.antt =====
-- `command` of src/compile/lower.rs emits commands that the configuration supports, and drops none.
use domiform.Base.{true, ◌≡◌, refl, ap, suc, some, List, [], ◌∷◌, All, length}
use domiform.Base.Assoc.{lookup}
use domiform.Base.Text.{Text, text_eq}
use domiform.Model.Command.{
  Command, toggle_switch, set_brightness, decrease_brightness, increase_brightness, set_color,
  set_color_temperature, activate_scene, schedule_timer, cancel_timer, send_ir_code,
}
use domiform.Rule.Trigger.{Trigger, watched, is_edge}
use domiform.Compile.Ast.{Yaml}
use domiform.Compile.Lowering.{Scope, note_used_scene, note_scheduled_key, note_referenced_key}
use domiform.Compile.Commands.{
  switch_command, toggle_command, brightness_command, decrease_command, increase_command,
  color_command, temperature_command, scene_command, timer_command, cancel_command, ir_command,
  command_of, command, commands, keep, for_duration, parse_color_temperature,
}
use domiform.Compile.Ensures.{
  Ensures, Ensures-pure, Ensures-bind, Ensures-if, Ensures-fail, Ensures-expect, Ensures-note,
  Ensures-attempt, Ensures-weaken,
}
use domiform.Compile.Typed.Defs.{IsScope, IsTypedCommand, IsU64}
use domiform.Compile.Typed.References.{
  Any, Ensures-duration, Ensures-parse_transition, Ensures-mireds, Ensures-color,
  Ensures-single_entry, Ensures-as_name, Ensures-payload, Ensures-device, Ensures-require,
}

module _ (y : Yaml) (scope : Scope) (context : Text) {H : Type 0} (wf : H → IsScope scope) where
  Ensures-switch :
      (verb : Text) (v : y.Value)
      → Ensures H (IsTypedCommand scope) (switch_command y scope context verb v)
  unfolding switch_command
  Ensures-switch verb v = Ensures-bind (Ensures-as_name y context v _) λ label.
      Ensures-bind (Ensures-device scope (λ h. wf h.0) context label) λ device.
        Ensures-bind (Ensures-require scope (λ h. wf h.0.0) context device label _ _ λ h. h.1)
          λ done. Ensures-pure _ λ h. h.1

  Ensures-toggle :
      (v : y.Value) → Ensures H (IsTypedCommand scope) (toggle_command y scope context v)
  unfolding toggle_command
  Ensures-toggle v = Ensures-bind (Ensures-as_name y context v _) λ label.
      Ensures-bind (Ensures-device scope (λ h. wf h.0) context label) λ device.
        Ensures-bind (Ensures-require scope (λ h. wf h.0.0) context device label _ _ λ h. h.1)
          λ done. Ensures-pure (toggle_switch device) λ h. h.1

  Ensures-brightness :
      (v : y.Value) → Ensures H (IsTypedCommand scope) (brightness_command y scope context v)
  unfolding brightness_command
  Ensures-brightness v = Ensures-bind (Ensures-payload y context y.set_brightness v _) λ b.
      Ensures-bind (Ensures-device scope (λ h. wf h.0) context b.device) λ device.
        Ensures-bind (Ensures-require scope (λ h. wf h.0.0) context device b.device _ _ λ h. h.1)
          λ done.
            Ensures-bind (Ensures-parse_transition context b.transition) λ transition.
              Ensures-pure (set_brightness device b.value transition) λ h. (h.0.1, h.1)

  Ensures-decrease :
      (v : y.Value) → Ensures H (IsTypedCommand scope) (decrease_command y scope context v)
  unfolding decrease_command
  Ensures-decrease v = Ensures-bind (Ensures-payload y context y.decrease_brightness v _) λ b.
      Ensures-bind (Ensures-device scope (λ h. wf h.0) context b.device) λ device.
        Ensures-bind (Ensures-require scope (λ h. wf h.0.0) context device b.device _ _ λ h. h.1)
          λ done. Ensures-pure (decrease_brightness device b.value) λ h. h.1

  Ensures-increase :
      (v : y.Value) → Ensures H (IsTypedCommand scope) (increase_command y scope context v)
  unfolding increase_command
  Ensures-increase v = Ensures-bind (Ensures-payload y context y.increase_brightness v _) λ b.
      Ensures-bind (Ensures-device scope (λ h. wf h.0) context b.device) λ device.
        Ensures-bind (Ensures-require scope (λ h. wf h.0.0) context device b.device _ _ λ h. h.1)
          λ done. Ensures-pure (increase_brightness device b.value) λ h. h.1

  Ensures-color_command :
      (v : y.Value) → Ensures H (IsTypedCommand scope) (color_command y scope context v)
  unfolding color_command
  Ensures-color_command v = Ensures-bind (Ensures-payload y context y.set_color v _) λ c.
      Ensures-bind (Ensures-device scope (λ h. wf h.0) context c.device) λ device.
        Ensures-bind (Ensures-require scope (λ h. wf h.0.0) context device c.device _ _ λ h. h.1)
          λ done. Ensures-bind (Ensures-color y context c.color) λ (r, g, b).
            Ensures-bind (Ensures-parse_transition context c.transition) λ transition.
              Ensures-pure (set_color device r g b transition)
                λ h. (h.0.0.1, h.0.1.0, h.0.1.1, h.0.1.2, h.1)

  Ensures-temperature :
      (v : y.Value) → Ensures H (IsTypedCommand scope) (temperature_command y scope context v)
  unfolding temperature_command parse_color_temperature
  Ensures-temperature v = Ensures-bind (Ensures-payload y context y.set_color_temperature v _) λ c.
      Ensures-bind (Ensures-device scope (λ h. wf h.0) context c.device) λ device.
        Ensures-bind (Ensures-require scope (λ h. wf h.0.0) context device c.device _ _ λ h. h.1)
          λ done. Ensures-bind (Ensures-mireds context c.kelvin c.mireds) λ mireds.
            Ensures-bind (Ensures-parse_transition context c.transition) λ transition.
              Ensures-pure (set_color_temperature device mireds transition)
                λ h. (h.0.0.1, h.0.1.0, h.0.1.1, h.1)

  Ensures-scene : (v : y.Value) → Ensures H (IsTypedCommand scope) (scene_command y scope context v)
  unfolding scene_command note_used_scene
  Ensures-scene v = Ensures-bind (Ensures-as_name y context v _) λ label.
      Ensures-bind {P = λ s. lookup label scope.scene_index ≡ some s}
        (Ensures-expect context _ _ _ λ s eq h. eq)
        λ scene.
          Ensures-bind {P = Any} (Ensures-note tt (λ sheet. (refl, refl)) λ h. tt)
            λ done. Ensures-pure (activate_scene scene) λ h. (label, h.0.1)

  Ensures-timer : (v : y.Value) → Ensures H (IsTypedCommand scope) (timer_command y scope context v)
  unfolding timer_command note_scheduled_key
  Ensures-timer v = Ensures-bind (Ensures-payload y context y.schedule_timer v _) λ s.
      Ensures-bind {P = Any} (Ensures-note tt (λ sheet. (refl, refl)) λ h. tt) λ done.
        Ensures-bind (Ensures-duration context s.after)
          λ after. Ensures-pure (schedule_timer s.key after) λ h. h.1

  Ensures-cancel :
      (v : y.Value) → Ensures H (IsTypedCommand scope) (cancel_command y scope context v)
  unfolding cancel_command note_referenced_key
  Ensures-cancel v = Ensures-bind (Ensures-as_name y context v _) λ key.
      Ensures-bind {P = Any} (Ensures-note tt (λ sheet. (refl, refl)) λ h. tt)
        λ done. Ensures-pure (cancel_timer key) λ h. tt

  Ensures-ir : (v : y.Value) → Ensures H (IsTypedCommand scope) (ir_command y scope context v)
  unfolding ir_command
  Ensures-ir v = Ensures-bind (Ensures-payload y context y.send_ir_code v _) λ ir.
      Ensures-bind (Ensures-device scope (λ h. wf h.0) context ir.device) λ device.
        Ensures-bind (Ensures-require scope (λ h. wf h.0.0) context device ir.device _ _ λ h. h.1)
          λ done. Ensures-pure (send_ir_code device ir.code) λ h. h.1

  Ensures-command_of :
      (verb : Text) (v : y.Value)
      → Ensures H (IsTypedCommand scope) (command_of y scope context verb v)
  unfolding command_of
  Ensures-command_of verb v = Ensures-if _ (Ensures-switch verb v) (
      Ensures-if _ (Ensures-toggle v) (
        Ensures-if _ (Ensures-brightness v) (
          Ensures-if _ (Ensures-decrease v) (
            Ensures-if _ (Ensures-increase v) (
              Ensures-if _ (Ensures-color_command v) (
                Ensures-if _ (Ensures-temperature v) (
                  Ensures-if _ (Ensures-scene v) (
                    Ensures-if _ (Ensures-timer v) (
                      Ensures-if _ (Ensures-cancel v)
                        (Ensures-if _ (Ensures-ir v) (Ensures-fail context _ _)))))))))))

-- A command for each value.
abbrev pub AreCommands : (y : Yaml) → Scope → List y.Value → List Command → Type 0
AreCommands y scope vs cs = All (IsTypedCommand scope) cs × (length cs ≡ length vs)

module _ (y : Yaml) (scope : Scope) (context : Text) {H : Type 0} (wf : H → IsScope scope) where
  Ensures-command : (v : y.Value) → Ensures H (IsTypedCommand scope) (command y scope context v)
  unfolding command
  Ensures-command v =
      Ensures-bind (Ensures-single_entry y context v _)
        λ (verb, body). Ensures-command_of y scope context (λ h. wf h.0) verb body

  pub Ensures-commands :
      (vs : List y.Value) → Ensures H (AreCommands y scope vs) (commands y scope context vs)
  unfolding commands
  Ensures-commands [] = Ensures-pure [] λ h. (tt, refl)
  Ensures-commands (v ∷ vs) = Ensures-bind (Ensures-attempt (Ensures-command v)) λ c.
      Ensures-bind (Ensures-weaken (λ h. h.0) (λ c h p. p) (Ensures-commands vs)) λ rest.
        Ensures-pure (keep c rest) λ h. let (a, eq, p) = h.0.1 in rw eq ((p, h.1.0), ap suc h.1.1)

module _ {H : Type 0} (context : Text) where
  -- Only an edge trigger takes a duration.
  pub Ensures-for_duration :
      (raw : Text) (t : Trigger)
      → Ensures H (λ after. (is_edge t ≡ true) × IsU64 after) (for_duration context raw t)
  unfolding for_duration watched
  Ensures-for_duration raw (Trigger.changed device k to) =
      Ensures-weaken (λ h. h) (λ after h p. (refl, p)) (Ensures-duration context raw)
  Ensures-for_duration raw (Trigger.crosses device k bound dir) =
      Ensures-weaken (λ h. h) (λ after h p. (refl, p)) (Ensures-duration context raw)
  Ensures-for_duration raw _ = Ensures-fail context _ _
