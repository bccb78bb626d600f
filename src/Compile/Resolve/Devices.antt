-- ===== src/Compile/Resolve/Devices.antt =====
-- The devices of `resolve` in src/compile/resolve.rs.
use domiform.Base.{
  ◌+◌, Bool, true, false, ◌&&◌, Option, none, some, List, [], ◌∷◌, ◌++◌, length, if◌then◌else◌,
}
use domiform.Base.Assoc.{Assoc, insert, lookup}
use domiform.Base.Text.{Text, bytes, text_eq}
use domiform.Model.Capability.{CapabilityKind, DeviceId, AdapterIdx, ActionId}
use domiform.Compile.Ast.{RawDevice}
use domiform.Compile.Lowering.{
  Lowering, DeviceDef, DeviceEvent, pure, ◌>>=◌, ◌>>◌, attempt, expect, parse_capability,
}
use domiform.Compile.Resolve.Adapters.{to_u32, warn}

-- The variables of the loop.
pub record DeviceTables : Type 0 where
  pub devices : List DeviceDef
  pub device_index : Assoc Text DeviceId
  pub used_adapters : List AdapterIdx
  pub next_action : ActionId

abbrev pub device_context : Text → Text
device_context label = bytes "device '" ++ label ++ bytes "'"

abbrev pub no_tables : DeviceTables
no_tables = record { devices = []; device_index = []; used_adapters = []; next_action = 0 }

abbrev pub is_empty : {A : Type 0} → List A → Bool
is_empty [] = true
is_empty (x ∷ xs) = false

abbrev pub cons_some : {A : Type 0} → Option A → List A → List A
cons_some none as' = as'
cons_some (some a) as' = a ∷ as'

-- Capabilities that are not known are reported and left out.
unfoldable pub capabilities_of : Text → List Text → Lowering (List CapabilityKind)
capabilities_of context [] = pure []
capabilities_of context (cap ∷ caps) = do
  k ← attempt (
      expect context (parse_capability cap) (bytes "E_UNKNOWN_CAPABILITY")
        (bytes "unknown capability '" ++ cap ++ bytes "'"))
  ks ← capabilities_of context caps
  pure (cons_some k ks)

-- The events with their numbers, and the next number.
unfoldable pub number_events : List (Text × Text) → ActionId → List DeviceEvent × ActionId
number_events [] next = ([], next)
number_events ((label, raw) ∷ rest) next =
    let (more, last) = number_events rest (to_u32 (next + 1)) in
    (record { id = next; name = label; raw = raw } ∷ more, last)

unfoldable pub def_of :
    DeviceTables → Text → RawDevice → AdapterIdx → List CapabilityKind → DeviceDef
def_of t label raw adapter capabilities = record {
  id = to_u32 (length t.devices);
  name = label;
  adapter = adapter;
  address = raw.address;
  endpoint = raw.endpoint;
  capabilities = capabilities;
  events = (number_events raw.events t.next_action).0;
  metadata = record { manufacturer = raw.manufacturer; model = raw.model; room = raw.room };
}

unfoldable pub add_device :
    DeviceTables → Text → RawDevice → Option AdapterIdx → List CapabilityKind → DeviceTables
add_device t label raw none capabilities = record t {
  next_action = (number_events raw.events t.next_action).1;
}
add_device t label raw (some adapter) capabilities = record {
  devices = t.devices ++ def_of t label raw adapter capabilities ∷ [];
  device_index = insert label (to_u32 (length t.devices)) t.device_index;
  used_adapters = adapter ∷ t.used_adapters;
  next_action = (number_events raw.events t.next_action).1;
}

unfoldable pub warn_inert : Text → RawDevice → Lowering (Unit {0})
warn_inert label raw =
    if is_empty raw.capabilities && is_empty raw.events
    then warn (device_context label) (bytes "E_INERT_DEVICE") (
        bytes
          "device declares neither capabilities nor events, so it can't be commanded or trigger rules")
    else pure tt

module _ (adapter_index : Assoc Text AdapterIdx) where
  unfoldable pub resolve_raw_device : DeviceTables → Text → RawDevice → Lowering DeviceTables
  resolve_raw_device t label raw = do
    adapter ← attempt (
        expect (device_context label) (lookup raw.adapter adapter_index) (bytes "E_UNKNOWN_ADAPTER")
          (bytes "references unknown adapter '" ++ raw.adapter ++ bytes "'"))
    capabilities ← capabilities_of (device_context label) raw.capabilities
    warn_inert label raw
    pure (add_device t label raw adapter capabilities)

  unfoldable pub resolve_devices : List (Text × RawDevice) → DeviceTables → Lowering DeviceTables
  resolve_devices [] t = pure t
  resolve_devices ((label, raw) ∷ rest) t = do
    t' ← resolve_raw_device t label raw
    resolve_devices rest t'
