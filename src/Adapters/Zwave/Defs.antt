-- ===== src/Adapters/Zwave/Defs.antt =====
-- The types and operations of src/adapters/zwavejs.rs. The JSON library and the client are parameters.
use domiform.Base.{
  ℕ, ◌<◌, ◌^◌, min, Bool, true, false, not, ◌&&◌, ◌||◌, Option, none, some, String, List, [], ◌∷◌,
  ◌++◌, if◌then◌else◌, leb, ltb, nat_beq, nat_eq, pair_eq, ◌==◌, ◌>>=◌, ◌≡◌,
}
use domiform.Base.Assoc.{Assoc, lookup, insert, IsMap}
use domiform.Base.Text.{Text, bytes, text_eq, decimal}
use domiform.Model.Capability.{
  CapabilityKind, CapabilityState, DeviceId, ActionId, Millis, kind_eq, kind_beq,
}
use domiform.Model.Command.{Command, Event, target_device}
use domiform.Color.White.{mireds_to_warm_cold, warm_cold_to_mireds}
use domiform.Compile.Scalars.{parse_unsigned}
use domiform.Adapters.Outcome.{DispatchOutcome, done, transient, permanent}
use domiform.Adapters.Zwave.Levels.{pct_to_zwave, zwave_to_pct}

-- What the code uses of serde_json: `json!` of what it writes, and the views that it takes.
pub record Wire : Type 1 where
  pub Value : Type 0
  pub of_bool : Bool → Value
  pub of_nat : ℕ → Value
  pub of_object : Assoc Text Value → Value
  pub as_bool : Value → Option Bool
  pub as_u64 : Value → Option ℕ
  pub as_object : Value → Option (Assoc Text Value)

-- What the library documents of them: a view gives back what was put in. An object may keep its entries
-- in an order of its own.
pub record IsWire (w : Wire) : Type 0 where
  pub bool_back : (b : Bool) → w.as_bool (w.of_bool b) ≡ some b
  pub nat_back : (n : ℕ) → n < 2 ^ 64 → w.as_u64 (w.of_nat n) ≡ some n
  pub object_back :
      (es : Assoc Text w.Value)
      → IsMap es
      → (fs : Assoc Text w.Value) × (w.as_object (w.of_object es) ≡ some fs)
        × ((k : Text) → lookup k fs ≡ lookup k es)

abbrev pub NodeId : Type 0
NodeId = ℕ

abbrev pub EndpointId : Type 0
EndpointId = ℕ

pub data DeviceKind : Type 0 where
  switch dimmer : DeviceKind

abbrev any_brightness : List CapabilityKind → Bool
any_brightness [] = false
any_brightness (c ∷ cs) = kind_beq c CapabilityKind.brightness || any_brightness cs

abbrev pub from_capabilities : List CapabilityKind → DeviceKind
from_capabilities caps = if any_brightness caps then DeviceKind.dimmer else DeviceKind.switch

abbrev pub cc_binary_switch : ℕ
cc_binary_switch = 37

abbrev pub cc_multilevel_switch : ℕ
cc_multilevel_switch = 38

abbrev pub cc_color_switch : ℕ
cc_color_switch = 51

abbrev pub cc_central_scene : ℕ
cc_central_scene = 91

abbrev pub cc_notification : ℕ
cc_notification = 113

abbrev pub cc_battery : ℕ
cc_battery = 128

abbrev multilevel_on : ℕ
multilevel_on = 255

unfoldable pub key_attribute_name : ℕ → Option Text
key_attribute_name value =
    if nat_beq value 0
    then some (bytes "KeyPressed")
    else if nat_beq value 1
    then some (bytes "KeyReleased")
    else if nat_beq value 2
    then some (bytes "KeyHeldDown")
    else if nat_beq value 3
    then some (bytes "KeyPressed2x")
    else if nat_beq value 4
    then some (bytes "KeyPressed3x")
    else if nat_beq value 5
    then some (bytes "KeyPressed4x")
    else if nat_beq value 6
    then some (bytes "KeyPressed5x")
    else none

unfoldable pub normalize_button : Text → Text
normalize_button key = elim (parse_unsigned (2 ^ 32) key) [ none ↦ key | some n ↦ decimal n ]

module _ (w : Wire) where
  pub record ValueUpdate : Type 0 where
    pub node : NodeId
    pub endpoint : EndpointId
    pub command_class : ℕ
    pub property : Text
    pub property_key : Option Text
    pub value : w.Value
    pub notification : Bool

  pub record SetValue : Type 0 where
    pub command_class : ℕ
    pub property : Text
    pub value : w.Value
    pub transition : Option Millis

  -- The trait, on a state of the client. The text is the error of `set_value`.
  pub record ZwaveClient : Type 1 where
    pub State : Type 0
    pub set_value : State → NodeId → EndpointId → SetValue → Option Text × State
    pub poll : State → List ValueUpdate × State

  abbrev pub Actions : Type 0
  Actions = Assoc DeviceId (Assoc Text ActionId)

  abbrev target_value : ℕ → w.Value → Option Millis → SetValue
  target_value class value transition = record {
    command_class = class;
    property = bytes "targetValue";
    value = value;
    transition = transition;
  }

  abbrev target_color : Assoc Text w.Value → Option Millis → SetValue
  target_color channels transition = record {
    command_class = cc_color_switch;
    property = bytes "targetColor";
    value = w.of_object channels;
    transition = transition;
  }

  unfoldable pub command_to_set_value : DeviceKind → Command → Option SetValue
  unfolding pct_to_zwave mireds_to_warm_cold
  command_to_set_value DeviceKind.dimmer (Command.set_switch _ on) =
      some (target_value cc_multilevel_switch (w.of_nat (if on then multilevel_on else 0)) none)
  command_to_set_value DeviceKind.switch (Command.set_switch _ on) =
      some (target_value cc_binary_switch (w.of_bool on) none)
  command_to_set_value _ (Command.set_brightness _ value transition) =
      some (target_value cc_multilevel_switch (w.of_nat (pct_to_zwave value)) transition)
  command_to_set_value _ (Command.set_color _ r g b transition) = some (
      target_color
        ((bytes "red", w.of_nat r) ∷ (bytes "green", w.of_nat g) ∷ (bytes "blue", w.of_nat b) ∷ [])
        transition)
  command_to_set_value _ (Command.set_color_temperature _ mireds transition) =
      let (warm, cold) = mireds_to_warm_cold mireds in
      some (
        target_color ((bytes "warmWhite", w.of_nat warm) ∷ (bytes "coldWhite", w.of_nat cold) ∷ [])
          transition)
  command_to_set_value _ _ = none

  abbrev channel_of : Assoc Text w.Value → Text → Option ℕ
  channel_of obj k = lookup k obj >>= λ v. w.as_u64 v

  unfoldable pub parse_zwave_color : w.Value → Option (ℕ × ℕ × ℕ)
  parse_zwave_color value = w.as_object value >>= λ obj. channel_of obj (bytes "red") >>= λ r.
      channel_of obj (bytes "green") >>= λ g. channel_of obj (bytes "blue") >>= λ b.
      if leb r 255 && leb g 255 && leb b 255 then some (r, g, b) else none

  unfoldable pub parse_zwave_color_temp : w.Value → Option ℕ
  unfolding warm_cold_to_mireds
  parse_zwave_color_temp value = w.as_object value >>= λ obj.
      channel_of obj (bytes "warmWhite") >>= λ warm.
      channel_of obj (bytes "coldWhite") >>= λ cold. warm_cold_to_mireds warm cold

  -- `Option::into_iter` of an event.
  abbrev pub to_list : Option Event → List Event
  to_list none = []
  to_list (some e) = e ∷ []

  -- A press of a Central Scene button.
  unfoldable pub pressed : Actions → DeviceId → ValueUpdate → List Event
  unfolding normalize_button key_attribute_name lookup
  pressed actions device u = to_list (
      u.property_key >>= λ key. (w.as_u64 u.value >>= λ n. key_attribute_name n) >>= λ attr.
      lookup device actions >>= λ declared.
      lookup (normalize_button key ++ bytes ":" ++ attr) declared >>= λ a.
      some (Event.action device a))

  unfoldable pub colored : DeviceId → w.Value → List Event
  unfolding parse_zwave_color parse_zwave_color_temp
  colored device value = elim (parse_zwave_color value) [
    | some (r, g, b) ↦ Event.state_reported device (CapabilityState.color r g b) ∷ []
    | none ↦ to_list (
        parse_zwave_color_temp value >>= λ mireds.
        some (Event.state_reported device (CapabilityState.color_temperature mireds)))
  ]

  -- The notifications of Home Security.
  unfoldable pub occupied : ℕ → Option Bool
  occupied n =
      if nat_beq n 0 then some false else if nat_beq n 7 || nat_beq n 8 then some true else none

  -- The pattern on the class and the property.
  abbrev is_value : ValueUpdate → ℕ → String → Bool
  is_value u class property = nat_beq u.command_class class && (u.property == bytes property)

  unfoldable pub stateful : DeviceId → ValueUpdate → List Event
  unfolding zwave_to_pct colored occupied
  stateful device u =
      if is_value u cc_binary_switch "currentValue"
      then to_list (
          w.as_bool u.value >>= λ on.
          some (Event.state_reported device (CapabilityState.switch on)))
      else if is_value u cc_multilevel_switch "currentValue"
      then elim (w.as_u64 u.value) [
        | none ↦ []
        | some lvl ↦
            Event.state_reported device (CapabilityState.brightness (zwave_to_pct lvl))
            ∷ Event.state_reported device (CapabilityState.switch (ltb 0 lvl))
            ∷ []
      ]
      else if is_value u cc_battery "level"
      then to_list (
          w.as_u64 u.value >>= λ pct.
          some (Event.state_reported device (CapabilityState.battery (min pct 100))))
      else if is_value u cc_color_switch "currentColor"
      then colored device u.value
      else if is_value u cc_notification "Home Security"
      then to_list (
          w.as_u64 u.value >>= λ n.
          occupied n >>= λ on. some (Event.state_reported device (CapabilityState.occupancy on)))
      else []

  unfoldable pub update_to_events :
      Assoc (NodeId × EndpointId) DeviceId → Actions → ValueUpdate → List Event
  unfolding lookup pressed stateful
  update_to_events by_node actions u = elim (lookup (u.node, u.endpoint) by_node) [
    | none ↦ []
    | some device ↦
        if is_value u cc_central_scene "scene"
        then (if not u.notification then [] else pressed actions device u)
        else stateful device u
  ]

  module _ (c : ZwaveClient) where
    pub record ZwaveAdapter : Type 0 where
      pub by_id : Assoc DeviceId (NodeId × EndpointId × DeviceKind)
      pub by_node : Assoc (NodeId × EndpointId) DeviceId
      pub actions : Actions
      pub client : c.State

    -- The loop of `new` over the devices.
    unfoldable pub index_devices :
        List (DeviceId × NodeId × EndpointId × DeviceKind)
        → Assoc DeviceId (NodeId × EndpointId × DeviceKind) × Assoc (NodeId × EndpointId) DeviceId
        → Assoc DeviceId (NodeId × EndpointId × DeviceKind) × Assoc (NodeId × EndpointId) DeviceId
    unfolding insert
    index_devices [] maps = maps
    index_devices ((id, node, endpoint, kind) ∷ rest) (by_id, by_node) =
        index_devices rest
          (insert id (node, endpoint, kind) by_id, insert (node, endpoint) id by_node)

    abbrev entry_or_default : DeviceId → Actions → Assoc Text ActionId
    entry_or_default id actions = elim (lookup id actions) [ none ↦ [] | some m ↦ m ]

    -- The loop of `new` over the events.
    unfoldable pub index_actions : List (DeviceId × Text × ActionId) → Actions → Actions
    unfolding insert
    index_actions [] actions = actions
    index_actions ((id, raw, action) ∷ rest) actions =
        index_actions rest (insert id (insert raw action (entry_or_default id actions)) actions)

    unfoldable pub new :
        List (DeviceId × NodeId × EndpointId × DeviceKind)
        → List (DeviceId × Text × ActionId)
        → c.State
        → ZwaveAdapter
    unfolding index_devices index_actions
    new devices events client =
        let (by_id, by_node) = index_devices devices ([], []) in
        record {
          by_id = by_id;
          by_node = by_node;
          actions = index_actions events [];
          client = client;
        }

    abbrev pub outcome_of : Option Text → DispatchOutcome
    outcome_of none = done
    outcome_of (some e) = transient e

    unfoldable pub dispatch : ZwaveAdapter → Command → DispatchOutcome × ZwaveAdapter
    unfolding target_device lookup command_to_set_value
    dispatch ad cmd = elim (target_device cmd) [
      | none ↦ (permanent (bytes "command has no target device"), ad)
      | some device ↦ elim (lookup device ad.by_id) [
        | none ↦ (permanent (bytes "device is not managed by this adapter"), ad)
        | some (node, endpoint, kind) ↦ elim (command_to_set_value kind cmd) [
          | none ↦ (permanent (bytes "command unsupported by z-wave"), ad)
          | some set ↦
              let (error, client) = c.set_value ad.client node endpoint set in
              (outcome_of error, record ad { client = client })
        ]
      ]
    ]

    abbrev pub events_of : ZwaveAdapter → List ValueUpdate → List Event
    events_of ad [] = []
    events_of ad (u ∷ us) = update_to_events ad.by_node ad.actions u ++ events_of ad us

    unfoldable pub tick : ZwaveAdapter → List Event × ZwaveAdapter
    tick ad =
        let (updates, client) = c.poll ad.client in
        (events_of ad updates, record ad { client = client })
