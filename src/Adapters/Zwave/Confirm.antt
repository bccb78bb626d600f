-- ===== src/Adapters/Zwave/Confirm.antt =====
-- A command of src/adapters/zwavejs.rs and the report that confirms it.
use domiform.Base.{
  ℕ, ◌+◌, ◌≤◌, ◌<◌, ◌≡◌, min, Bool, true, false, none, some, List, [], ◌∷◌, arith, refl,
  some_injective, if◌then◌else◌, ltb, nat_eq, pair_eq, ◌==◌, sym, subst, nat_beq, ◌≢◌, ◌∙◌,
}
use domiform.Base.Assoc.{Assoc, lookup, IsMap}
use domiform.Base.Text.{bytes, text_eq}
use domiform.Model.Capability.{CapabilityState, DeviceId}
use domiform.Model.Command.{Command, Event, target_device}
use domiform.Color.White.{
  mireds_to_warm_cold, warm_cold_to_mireds, warm_cold_to_mireds-band, mix_lem,
}
use domiform.Adapters.Zwave.Levels.{
  pct_to_zwave, zwave_to_pct, pct_to_zwave-zwave_to_pct, zwave_to_pct-pct_to_zwave, pct_to_zwave_le,
  pct_to_zwave_positive,
}
use domiform.Adapters.Zwave.Defs.{
  Wire, IsWire, DeviceKind, ValueUpdate, SetValue, Actions, NodeId, EndpointId,
  command_to_set_value, update_to_events, stateful, colored, parse_zwave_color,
  parse_zwave_color_temp,
}

-- The channels of a colour are bytes.
abbrev pub InBytes : Command → Type 0
InBytes (Command.set_color _ r g b _) = (r < 256) × (g < 256) × (b < 256)
InBytes _ = Unit

-- What a report says that carries the value of a command.
abbrev pub Confirmed : DeviceKind → Command → List Event → Type 0
Confirmed DeviceKind.switch (Command.set_switch d on) es =
    es ≡ Event.state_reported d (CapabilityState.switch on) ∷ []
Confirmed DeviceKind.dimmer (Command.set_switch d on) es =
    es
    ≡ Event.state_reported d (CapabilityState.brightness (if on then 100 else 0))
      ∷ Event.state_reported d (CapabilityState.switch on)
      ∷ []
Confirmed _ (Command.set_brightness d pct _) es =
    (p : ℕ) × (es
      ≡ Event.state_reported d (CapabilityState.brightness p)
        ∷ Event.state_reported d (CapabilityState.switch (ltb 0 pct))
        ∷ [])
    × (pct_to_zwave p ≡ pct_to_zwave pct)
    × (p ≤ min pct 100 + 1)
    × (min pct 100 ≤ p + 1)
Confirmed _ (Command.set_color d r g b _) es =
    es ≡ Event.state_reported d (CapabilityState.color r g b) ∷ []
Confirmed _ (Command.set_color_temperature d _ _) es =
    (m : ℕ) × (es ≡ Event.state_reported d (CapabilityState.color_temperature m) ∷ [])
    × (153 ≤ m)
    × (m ≤ 370)
Confirmed _ _ es = Unit

module _ (w : Wire) (lib : IsWire w) where
  -- A report of the value that was written, on the property that mirrors the target.
  abbrev pub Echoes : SetValue w → ValueUpdate w → Type 0
  Echoes set u =
      (u.command_class ≡ set.command_class)
      × (u.property ≡ (
          if set.property == bytes "targetColor"
          then bytes "currentColor"
          else bytes "currentValue"))
      × (u.value ≡ set.value)

  module _ (d : DeviceId) (u : ValueUpdate w) where
    on_relay :
        (on : Bool)
        → u.command_class ≡ 37
        → u.property ≡ bytes "currentValue"
        → u.value ≡ w.of_bool on
        → stateful w d u ≡ Event.state_reported d (CapabilityState.switch on) ∷ []
    unfolding stateful
    on_relay on c p v = rw c (rw p (rw v (rw (lib.bool_back on) refl)))

    on_dimmer :
        (lvl : ℕ)
        → lvl < 256
        → u.command_class ≡ 38
        → u.property ≡ bytes "currentValue"
        → u.value ≡ w.of_nat lvl
        → stateful w d u
          ≡ Event.state_reported d (CapabilityState.brightness (zwave_to_pct lvl))
            ∷ Event.state_reported d (CapabilityState.switch (ltb 0 lvl))
            ∷ []
    unfolding stateful
    on_dimmer lvl h c p v = rw c (rw p (rw v (rw (lib.nat_back lvl (omega (arith, h))) refl)))

    on_color :
        u.command_class ≡ 51
        → u.property ≡ bytes "currentColor"
        → stateful w d u ≡ colored w d u.value
    unfolding stateful
    on_color c p = rw c (rw p refl)

    colored_rgb :
        (r g b : ℕ)
        → r < 256
        → g < 256
        → b < 256
        → colored w d (
            w.of_object (
              (bytes "red", w.of_nat r)
              ∷ (bytes "green", w.of_nat g)
              ∷ (bytes "blue", w.of_nat b)
              ∷ []))
          ≡ Event.state_reported d (CapabilityState.color r g b) ∷ []
    unfolding colored parse_zwave_color lookup IsMap
    colored_rgb r g b hr hg hb =
        let (fs, view, same) =
          lib.object_back
            ((bytes "red", w.of_nat r)
              ∷ (bytes "green", w.of_nat g)
              ∷ (bytes "blue", w.of_nat b)
              ∷ [])
            (refl, (refl, (refl, tt))) in
        let red : lookup (bytes "red") fs ≡ some (w.of_nat r) = same (bytes "red") in
        let green : lookup (bytes "green") fs ≡ some (w.of_nat g) = same (bytes "green") in
        let blue : lookup (bytes "blue") fs ≡ some (w.of_nat b) = same (bytes "blue") in
        let r' = lib.nat_back r (omega (arith, hr)) in
        let g' = lib.nat_back g (omega (arith, hg)) in
        let b' = lib.nat_back b (omega (arith, hb)) in
        ground (arith, view, red, green, blue, r', g', b')

    colored_white :
        (warm cold : ℕ)
        → warm < 256
        → cold < 256
        → 0 < warm + cold
        → (m : ℕ) × (colored w d (
              w.of_object
                ((bytes "warmWhite", w.of_nat warm) ∷ (bytes "coldWhite", w.of_nat cold) ∷ []))
            ≡ Event.state_reported d (CapabilityState.color_temperature m) ∷ [])
          × (153 ≤ m)
          × (m ≤ 370)
    unfolding colored parse_zwave_color parse_zwave_color_temp lookup IsMap
    colored_white warm cold hw hc lit =
        let (fs, view, same) =
          lib.object_back
            ((bytes "warmWhite", w.of_nat warm) ∷ (bytes "coldWhite", w.of_nat cold) ∷ [])
            (refl, (refl, tt)) in
        let red : lookup (bytes "red") fs ≡ none = same (bytes "red") in
        let w' : lookup (bytes "warmWhite") fs ≡ some (w.of_nat warm) = same (bytes "warmWhite") in
        let c' : lookup (bytes "coldWhite") fs ≡ some (w.of_nat cold) = same (bytes "coldWhite") in
        let warm' = lib.nat_back warm (omega (arith, hw)) in
        let cold' = lib.nat_back cold (omega (arith, hc)) in
        let lamp : (m : ℕ) × (warm_cold_to_mireds warm cold ≡ some m) × (153 ≤ m) × (m ≤ 370) =
          ground (arith, warm_cold_to_mireds-band warm cold hw hc) in
        let (m, e, low, high) = lamp in
        (m, ground (arith, view, red, w', c', warm', cold', e), low, high)

    echoed : {s set : SetValue w} → some s ≡ some set → Echoes set u → Echoes s u
    echoed written echo = subst (λ x. Echoes x u) (sym (some_injective written)) echo

    meets_brightness :
        (pct : ℕ)
        → u.command_class ≡ 38
        → u.property ≡ bytes "currentValue"
        → u.value ≡ w.of_nat (pct_to_zwave pct)
        → Confirmed DeviceKind.dimmer (Command.set_brightness d pct none) (stateful w d u)
    meets_brightness pct c p v =
        let lvl = pct_to_zwave pct in
        let small = pct_to_zwave_le pct in
        let lit : ltb 0 lvl ≡ ltb 0 pct = ground (arith, pct_to_zwave_positive pct) in
        let said = on_dimmer lvl (omega (arith, small)) c p v in
        let (above, below) = zwave_to_pct-pct_to_zwave pct in
        (
          zwave_to_pct lvl,
          rw said (rw lit refl),
          pct_to_zwave-zwave_to_pct lvl ∙ omega (arith, small),
          above,
          below,
        )

    meets_temperature :
        (m : ℕ)
        → u.command_class ≡ 51
        → u.property ≡ bytes "currentColor"
        → u.value
          ≡ w.of_object (
              (bytes "warmWhite", w.of_nat (mireds_to_warm_cold m).0)
              ∷ (bytes "coldWhite", w.of_nat (mireds_to_warm_cold m).1)
              ∷ [])
        → Confirmed DeviceKind.dimmer (Command.set_color_temperature d m none) (stateful w d u)
    meets_temperature m c p v =
        let (top, bottom, _) = mix_lem m m (omega arith) in
        let mix = mireds_to_warm_cold m in
        let seen =
          colored_white mix.0 mix.1 (omega (arith, top)) (omega (arith, top))
            (omega (arith, bottom)) in
        rw (on_color c p) (rw v seen)

    meets :
        (kind : DeviceKind) (cmd : Command) (set : SetValue w)
        → target_device cmd ≡ some d
        → command_to_set_value w kind cmd ≡ some set
        → InBytes cmd
        → Echoes set u
        → Confirmed kind cmd (stateful w d u)
    unfolding target_device command_to_set_value zwave_to_pct
    meets DeviceKind.switch (Command.set_switch d' on) set at written bytes_ok echo =
        let (c, p, v) = echoed written echo in rw (some_injective at) (on_relay on c p v)
    meets DeviceKind.dimmer (Command.set_switch d' true) set at written bytes_ok echo =
        let (c, p, v) = echoed written echo in
        rw (some_injective at) (on_dimmer 255 (omega arith) c p v)
    meets DeviceKind.dimmer (Command.set_switch d' false) set at written bytes_ok echo =
        let (c, p, v) = echoed written echo in
        rw (some_injective at) (on_dimmer 0 (omega arith) c p v)
    meets DeviceKind.switch (Command.set_brightness d' pct t) set at written bytes_ok echo =
        let (c, p, v) = echoed written echo in rw (some_injective at) (meets_brightness pct c p v)
    meets DeviceKind.dimmer (Command.set_brightness d' pct t) set at written bytes_ok echo =
        let (c, p, v) = echoed written echo in rw (some_injective at) (meets_brightness pct c p v)
    meets DeviceKind.switch (Command.set_color d' r g b t) set at written (hr, hg, hb) echo =
        let (c, p, v) = echoed written echo in
        rw (some_injective at) (rw (on_color c p) (rw v (colored_rgb r g b hr hg hb)))
    meets DeviceKind.dimmer (Command.set_color d' r g b t) set at written (hr, hg, hb) echo =
        let (c, p, v) = echoed written echo in
        rw (some_injective at) (rw (on_color c p) (rw v (colored_rgb r g b hr hg hb)))
    meets DeviceKind.switch (Command.set_color_temperature d' m t) set at written bytes_ok echo =
        let (c, p, v) = echoed written echo in rw (some_injective at) (meets_temperature m c p v)
    meets DeviceKind.dimmer (Command.set_color_temperature d' m t) set at written bytes_ok echo =
        let (c, p, v) = echoed written echo in rw (some_injective at) (meets_temperature m c p v)
    meets DeviceKind.switch _ set at written bytes_ok echo = tt
    meets DeviceKind.dimmer _ set at written bytes_ok echo = tt

  not_scene :
      (kind : DeviceKind) (cmd : Command) (set : SetValue w)
      → command_to_set_value w kind cmd ≡ some set
      → set.command_class ≢ 91
  unfolding command_to_set_value
  not_scene kind cmd set written = ground arith

  by_state :
      (by_node : Assoc (NodeId × EndpointId) DeviceId) (actions : Actions w) (u : ValueUpdate w)
      (d : DeviceId)
      → lookup (u.node, u.endpoint) by_node ≡ some d
      → u.command_class ≢ 91
      → update_to_events w by_node actions u ≡ stateful w d u
  unfolding update_to_events
  by_state by_node actions u d found foreign =
      let other : nat_beq u.command_class 91 ≡ false = ground (arith, foreign) in
      rw (update_to_events, found, other) refl

  -- Once a report of the written value reaches the adapter, it says what the command asked for.
  pub confirm :
      (by_node : Assoc (NodeId × EndpointId) DeviceId) (actions : Actions w) (u : ValueUpdate w)
      (kind : DeviceKind) (cmd : Command) (set : SetValue w) (d : DeviceId)
      → lookup (u.node, u.endpoint) by_node ≡ some d
      → target_device cmd ≡ some d
      → command_to_set_value w kind cmd ≡ some set
      → InBytes cmd
      → Echoes set u
      → Confirmed kind cmd (update_to_events w by_node actions u)
  confirm by_node actions u kind cmd set d found at written bytes_ok echo =
      let foreign : u.command_class ≢ 91 = λ h. not_scene kind cmd set written (sym echo.0 ∙ h) in
      rw (by_state by_node actions u d found foreign)
        (meets d u kind cmd set at written bytes_ok echo)
