-- ===== src/Tests/Zwave.antt =====
-- Tests of the model of src/adapters/zwavejs.rs, with a client whose nodes report what they are told.
use domiform.Base.{
  ℕ, ◌≡◌, refl, Bool, true, Option, none, some, List, [], ◌∷◌, ap, inl, inr, All, arith,
}
use domiform.Base.Assoc.{Assoc}
use domiform.Base.Text.{Text, bytes, text_eq, decimal}
use domiform.Compile.Scalars.{parse_unsigned}
use domiform.Model.Capability.{CapabilityKind, CapabilityState}
use domiform.Model.Command.{Command, Event, target_device}
use domiform.Adapters.Outcome.{done}
use domiform.Adapters.Zwave.{
  Wire, IsWire, DeviceKind, ValueUpdate, SetValue, ZwaveClient, ZwaveAdapter, new, dispatch, tick,
  pct_to_zwave, command_to_set_value, update_to_events, from_capabilities,
}
use domiform.Adapters.Zwave.Index.{Device}
use domiform.Adapters.Zwave.Confirm.{Confirmed}
use domiform.Adapters.Zwave.Session.{tick-dispatch}
use domiform.Adapters.Zwave.Reports.{Sourced, tick-Sourced}

mutual
  data Tree : Type 0 where
    flag : Bool → Tree
    number : ℕ → Tree
    fields : Fields → Tree

  data Fields : Type 0 where
    end : Fields
    field : Text → Tree → Fields → Fields

abbrev collect : Assoc Text Tree → Fields
collect [] = end
collect ((k, v) ∷ es) = field k v (collect es)

abbrev spread : Fields → Assoc Text Tree
spread end = []
spread (field k v rest) = (k, v) ∷ spread rest

spread-collect : (es : Assoc Text Tree) → spread (collect es) ≡ es
spread-collect [] = refl
spread-collect ((k, v) ∷ es) = ap (λ rest. (k, v) ∷ rest) (spread-collect es)

abbrev flag_of : Tree → Option Bool
flag_of (flag b) = some b
flag_of _ = none

abbrev number_of : Tree → Option ℕ
number_of (number n) = some n
number_of _ = none

abbrev fields_of : Tree → Option (Assoc Text Tree)
fields_of (fields fs) = some (spread fs)
fields_of _ = none

abbrev trees : Wire
trees = record {
  Value = Tree;
  of_bool = flag;
  of_nat = number;
  of_object = λ es. fields (collect es);
  as_bool = flag_of;
  as_u64 = number_of;
  as_object = fields_of;
}

trees-IsWire : IsWire trees
trees-IsWire = record {
  bool_back = λ b. refl;
  nat_back = λ n h. refl;
  object_back = λ es h. (es, ap some (spread-collect es), λ k. refl);
}

abbrev report : ℕ → ℕ → Text → Tree → ValueUpdate trees
report endpoint class property value = record {
  node = 7;
  endpoint = endpoint;
  command_class = class;
  property = property;
  property_key = some (bytes "001");
  value = value;
  notification = true;
}

abbrev echo : ℕ → SetValue trees → ValueUpdate trees
echo endpoint set = report endpoint set.command_class (bytes "currentValue") set.value

abbrev echoing : ZwaveClient trees
echoing = record {
  State = List (ValueUpdate trees);
  set_value = λ s node endpoint set. (none, echo endpoint set ∷ s);
  poll = λ s. (s, []);
}

dimmer_kind :
    from_capabilities (CapabilityKind.battery ∷ CapabilityKind.brightness ∷ []) ≡ DeviceKind.dimmer
dimmer_kind = refl

-- A relay and a dimmer in one module.
abbrev module_devices : List Device
module_devices = (4, 7, 0, DeviceKind.switch) ∷ (5, 7, 1, DeviceKind.dimmer) ∷ []

abbrev half : SetValue trees
half = record {
  command_class = 38;
  property = bytes "targetValue";
  value = number 50;
  transition = none;
}

abbrev half_cmd : Command
half_cmd = Command.set_brightness 5 50 none

half_lowered : command_to_set_value trees DeviceKind.dimmer half_cmd ≡ some half
unfolding command_to_set_value pct_to_zwave
half_lowered = refl

tick-dispatch_example :
    ((dispatch trees echoing (new trees echoing module_devices [] []) half_cmd).0 ≡ done)
    × Confirmed DeviceKind.dimmer half_cmd
        (tick trees echoing
          (dispatch trees echoing (new trees echoing module_devices [] []) half_cmd).1).0
unfolding target_device
tick-dispatch_example =
    tick-dispatch trees trees-IsWire echoing module_devices [] [] (5, 7, 1, DeviceKind.dimmer)
      half_cmd half (echo 1 half)
      (((λ h. omega (arith, h), λ h. omega (arith, ap (λ x. x.1) h)), tt), (tt, tt))
      (inr (inl refl)) refl half_lowered tt (refl, refl, refl) refl refl refl

abbrev pressed_once : List (ValueUpdate trees)
pressed_once =
    report 0 91 (bytes "scene") (number 0)
    ∷ report 1 38 (bytes "currentValue") (number 99)
    ∷ report 1 38 (bytes "targetValue") (number 0)
    ∷ []

abbrev remote : ZwaveAdapter trees echoing
remote = record {
  by_id = [];
  by_node = ((7, 0), 4) ∷ ((7, 1), 5) ∷ [];
  actions = (4, (bytes "1:KeyPressed", 2) ∷ []) ∷ [];
  client = pressed_once;
}

remote_ticks :
    (tick trees echoing remote).0
    ≡ Event.action 4 2
      ∷ Event.state_reported 5 (CapabilityState.brightness 100)
      ∷ Event.state_reported 5 (CapabilityState.switch true)
      ∷ []
unfolding tick update_to_events parse_unsigned decimal
remote_ticks = refl

tick-Sourced_example : All (Sourced trees echoing remote pressed_once) (tick trees echoing remote).0
tick-Sourced_example = tick-Sourced trees echoing remote
