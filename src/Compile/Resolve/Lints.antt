-- ===== src/Compile/Resolve/Lints.antt =====
-- The lints over the whole program in src/compile/resolve.rs.
use domiform.Base.{
  ℕ, suc, Bool, true, false, not, ◌&&◌, ◌||◌, Option, none, some, List, [], ◌∷◌, ◌++◌,
  if◌then◌else◌, ◌==◌, nat_eq, get_elem?, Eq,
}
use domiform.Base.Assoc.{Assoc, lookup}
use domiform.Base.Text.{Text, bytes, text_eq}
use domiform.Model.Capability.{DeviceId, AdapterIdx, SceneId, ScheduleId}
use domiform.Compile.Diagnostic.{Diagnostic, of_warning}
use domiform.Compile.Lowering.{Lowering, Sheet, DeviceDef, pure, ◌>>◌, push, error}
use domiform.Compile.Plugins.{
  AdapterPlugin, AdapterDef, southbound, northbound, ExposeSpec, all, named,
}
use domiform.Compile.Resolve.Adapters.{warn, push_all, adapter_context}
use domiform.Compile.Resolve.Devices.{device_context, is_empty}
use domiform.Compile.Resolve.Schedules.{CompiledSchedule, schedule_context}
use domiform.Compile.Resolve.Rules.{CompiledScene, scene_context}

-- `contains` of a set.
module _ {A : Type 0} ⦃e : Eq A⦄ where
  abbrev pub holds : List A → A → Bool
  holds [] a = false
  holds (x ∷ xs) a = x == a || holds xs a

  -- `difference`: each element once.
  abbrev pub difference : List A → List A → List A
  difference [] ys = []
  difference (x ∷ xs) ys =
      let rest = difference xs ys in if holds ys x || holds xs x then rest else x ∷ rest

abbrev pub is_northbound : {Value S N : Type 0} → Option (AdapterPlugin Value S N) → Bool
is_northbound none = false
is_northbound (some p) = elim p.polarity [ southbound ↦ false | northbound ↦ true ]

module _ (Value S N : Type 0) where
  unfoldable pub lint_unused_adapters :
      List (AdapterDef Value S N) → ℕ → List AdapterIdx → Lowering (Unit {0})
  lint_unused_adapters [] idx used = pure tt
  lint_unused_adapters (adapter ∷ rest) idx used = do
    if not (is_northbound adapter.plugin) && not (holds used idx)
        then warn (adapter_context adapter.name) (bytes "E_UNUSED_ADAPTER")
            (bytes "adapter is not used by any device")
        else pure tt
    lint_unused_adapters rest (suc idx) used

  module _ (devices : List DeviceDef) (device_index : Assoc Text DeviceId) where
    unfoldable pub check_known : Text → Text → Lowering (Unit {0})
    check_known context n = elim (lookup n device_index) [
      | some _ ↦ pure tt
      | none ↦
          error context (bytes "E_UNKNOWN_EXPOSED_DEVICE")
            (bytes "exposes unknown device '" ++ n ++ bytes "'")
    ]

    unfoldable pub check_exposed : Text → List Text → Lowering (Unit {0})
    check_exposed context [] = pure tt
    check_exposed context (n ∷ ns) = do check_known context n; check_exposed context ns

    unfoldable pub check_expose : Text → Option ExposeSpec → Lowering (Unit {0})
    check_expose context none = pure tt
    check_expose context (some all) =
        if is_empty devices
        then warn context (bytes "E_EMPTY_EXPOSE")
            (bytes "adapter exposes all devices, but none are declared")
        else pure tt
    check_expose context (some (named names)) = do
      if is_empty names
          then warn context (bytes "E_EMPTY_EXPOSE")
              (bytes "adapter exposes no devices, so its consumer sees nothing")
          else pure tt
      check_exposed context names

    abbrev spec_of : Option (AdapterPlugin Value S N) → Value → Option ExposeSpec
    spec_of none config = none
    spec_of (some p) config = p.expose_spec config

    unfoldable pub check_exposes : List (AdapterDef Value S N) → Lowering (Unit {0})
    check_exposes [] = pure tt
    check_exposes (adapter ∷ rest) = do
      check_expose (adapter_context adapter.name) (spec_of adapter.plugin adapter.config)
      check_exposes rest

  abbrev device_diags : Option (AdapterDef Value S N) → DeviceDef → List Diagnostic
  device_diags none device = []
  device_diags (some adapter) device = elim adapter.plugin [
    | none ↦ []
    | some p ↦ p.validate_device adapter.config device (device_context device.name)
  ]

  unfoldable pub check_devices : List DeviceDef → List (AdapterDef Value S N) → Lowering (Unit {0})
  check_devices [] adapters = pure tt
  check_devices (device ∷ rest) adapters = do
    push_all (device_diags (get_elem? adapters device.adapter) device)
    check_devices rest adapters

unfoldable pub lint_scenes : List CompiledScene → List SceneId → Lowering (Unit {0})
lint_scenes [] used = pure tt
lint_scenes (scene ∷ rest) used = do
  if holds used scene.id
      then pure tt
      else warn (scene_context scene.name) (bytes "E_UNUSED_SCENE")
          (bytes "scene is never activated")
  lint_scenes rest used

unfoldable pub lint_schedules : List CompiledSchedule → List ScheduleId → Lowering (Unit {0})
lint_schedules [] referenced = pure tt
lint_schedules (schedule ∷ rest) referenced = do
  if holds referenced schedule.id
      then pure tt
      else warn (schedule_context schedule.name) (bytes "E_UNUSED_SCHEDULE")
          (bytes "schedule triggers no rule")
  lint_schedules rest referenced

unfoldable pub lint_keys : List Text → Lowering (Unit {0})
lint_keys [] = pure tt
lint_keys (key ∷ rest) = do
  push (
      of_warning (bytes "E_DANGLING_TIMER")
        (bytes "timer key '" ++ key ++ bytes "' is referenced but never scheduled"))
  lint_keys rest

unfoldable pub lint_no_devices : {A : Type 0} → List A → Lowering (Unit {0})
lint_no_devices raw =
    if is_empty raw
    then push (of_warning (bytes "E_NO_DEVICES") (bytes "configuration defines no devices"))
    else pure tt

-- What lowering noted, for the lints.
unfoldable pub look : Lowering Sheet
look sheet = (some sheet, sheet)
