-- ===== src/Compile/Build/Engine.antt =====
-- `build_engine_full` of src/compile/mod.rs. `none` is a panic: an index out of range, or a missing plugin.
use domiform.Base.{
  ℕ, suc, ◌-◌, ◌^◌, Option, none, some, List, [], ◌∷◌, ◌++◌, ◌>>=◌, length, get_elem?, set, filter,
  nat_eq, Bool, ◌&&◌, nat_beq, if◌then◌else◌,
}
use domiform.Base.Int.{ℤ}
use domiform.Base.Text.{Text, text_eq}
use domiform.Model.Capability.{AdapterIdx, DeviceId, ScheduleId}
use domiform.Rule.Rules.{Rule}
use domiform.Engine.Parts.{
  Engine, Adapter, new, add_adapter, add_northbound, bind_device, add_rule, add_scene,
}
use domiform.Compile.Lowering.{DeviceDef}
use domiform.Compile.Plugins.{AdapterDef, Calendar, southbound, northbound, ExposeSpec, all, named}
use domiform.Compile.Resolve.Schedules.{CompiledSchedule}
use domiform.Compile.Resolve.Rules.{CompiledScene}
use domiform.Compile.Resolve.Lints.{holds}
use domiform.Compile.Resolve.Config.{CompiledConfig, runtime_storage_dir}

-- `usize::MAX`
abbrev pub no_slot : AdapterIdx
no_slot = 2 ^ 64 - 1

-- `by_adapter[device.adapter].push(device)`
unfoldable pub place : List (List DeviceDef) → DeviceDef → Option (List (List DeviceDef))
place groups d = get_elem? groups d.adapter >>= λ ds. some (set groups d.adapter (ds ++ d ∷ []))

unfoldable pub group : List DeviceDef → List (List DeviceDef) → Option (List (List DeviceDef))
group [] groups = some groups
group (d ∷ ds) groups = place groups d >>= λ groups'. group ds groups'

abbrev pub empty_groups : {A : Type 0} → List A → List (List DeviceDef)
empty_groups [] = []
empty_groups (a ∷ as') = [] ∷ empty_groups as'

-- Each schedule that parses, with its expression.
unfoldable pub compiled_schedules : Calendar → List CompiledSchedule → List (ScheduleId × Text)
compiled_schedules calendar [] = []
compiled_schedules calendar (s ∷ ss) =
    let rest = compiled_schedules calendar ss in
    elim (calendar.cron_error s.cron) [ none ↦ (s.id, s.cron) ∷ rest | some e ↦ rest ]

module _ (Float Value S N : Type 0) where
  unfoldable pub exposed_devices :
      CompiledConfig Float Value S N → Option ExposeSpec → List DeviceDef
  exposed_devices cfg none = []
  exposed_devices cfg (some all) = cfg.devices
  exposed_devices cfg (some (named names)) =
      filter (λ (d : DeviceDef). holds names d.name) cfg.devices

  abbrev pub with_northbound : Option N → Engine S N → Engine S N
  with_northbound none e = e
  with_northbound (some nb) e = add_northbound e nb

  -- One round of the loop over the adapters: the engine and the adapter's slot.
  unfoldable pub build_adapter :
      CompiledConfig Float Value S N
      → Text
      → AdapterDef Value S N
      → List DeviceDef
      → Engine S N
      → Option (Engine S N × AdapterIdx)
  build_adapter cfg dir adapter devices e = adapter.plugin >>= λ plugin. elim plugin.polarity [
    | southbound ↦ some (add_adapter e (plugin.build adapter.config devices), length e.adapters)
    | northbound ↦
        let exposed = exposed_devices cfg (plugin.expose_spec adapter.config) in
        some (
          with_northbound (plugin.build_northbound adapter.config exposed adapter.name dir) e,
          no_slot,
        )
  ]

  unfoldable pub build_adapters :
      CompiledConfig Float Value S N
      → Text
      → List (AdapterDef Value S N)
      → List (List DeviceDef)
      → ℕ
      → Engine S N
      → Option (Engine S N × List AdapterIdx)
  build_adapters cfg dir [] groups i e = some (e, [])
  build_adapters cfg dir (adapter ∷ rest) groups i e = get_elem? groups i >>= λ devices.
      build_adapter cfg dir adapter devices e >>= λ (e1, slot).
      build_adapters cfg dir rest groups (suc i) e1 >>= λ (e2, slots). some (e2, slot ∷ slots)

  -- `debug` is `cfg!(debug_assertions)`: `debug_assert_ne!` panics with them only.
  unfoldable pub bind_devices :
      Bool → List DeviceDef → List AdapterIdx → Engine S N → Option (Engine S N)
  bind_devices debug [] slots e = some e
  bind_devices debug (d ∷ ds) slots e = get_elem? slots d.adapter >>= λ slot.
      let bound = bind_devices debug ds slots (bind_device e d.id slot) in
      if debug && nat_beq slot no_slot then none else bound

  unfoldable pub add_scenes : List CompiledScene → Engine S N → Engine S N
  add_scenes [] e = e
  add_scenes (s ∷ ss) e = add_scenes ss (add_scene e s.id s.commands)

  unfoldable pub add_rules : List Rule → Engine S N → Engine S N
  add_rules [] e = e
  add_rules (r ∷ rs) e = add_rules rs (add_rule e r)

  -- `clock` makes the clock's adapter: its device, the epoch at boot, the zone, the coordinates and the
  -- schedules.
  module _ (calendar : Calendar)
      (clock : DeviceId → ℤ → Text → Float → Float → List (ScheduleId × Text) → Adapter S) where
    abbrev pub clock_adapter : CompiledConfig Float Value S N → ℤ → Adapter S
    clock_adapter cfg boot_epoch_ms =
        clock cfg.clock_device boot_epoch_ms cfg.system.timezone cfg.system.latitude
          cfg.system.longitude (compiled_schedules calendar cfg.schedules)

    unfoldable pub build_engine_full :
        Bool → CompiledConfig Float Value S N → ℤ → Text → Option (Engine S N)
    build_engine_full debug cfg boot_epoch_ms config_dir =
        group cfg.devices (empty_groups cfg.adapters) >>= λ groups.
        build_adapters cfg (runtime_storage_dir cfg.system config_dir) cfg.adapters groups 0 new
        >>= λ (e, slots). bind_devices debug cfg.devices slots e >>= λ e1. some (
            add_rules cfg.rules (
              add_scenes cfg.scenes (
                bind_device (add_adapter e1 (clock_adapter cfg boot_epoch_ms)) cfg.clock_device
                  (length e1.adapters))))
