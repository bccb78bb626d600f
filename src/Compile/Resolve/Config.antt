-- ===== src/Compile/Resolve/Config.antt =====
-- `resolve` of src/compile/resolve.rs, `compile_str` of src/compile/mod.rs, and the graph they give.
use domiform.Base.{
  Bool, false, ◌||◌, Option, none, some, List, [], ◌∷◌, ◌++◌, length, if◌then◌else◌, get_elem?,
  find, ◌==◌,
}
use domiform.Base.Assoc.{Assoc, lookup}
use domiform.Base.Text.{Text, bytes, text_eq}
use domiform.Model.Capability.{DeviceId, AdapterIdx, SceneId, ScheduleId, ActionId}
use domiform.Rule.Rules.{Rule}
use domiform.Compile.Diagnostic.{Diagnostic, of_error, is_error}
use domiform.Compile.Ast.{
  Yaml, RawConfig, RawSystem, RawHealthcheck, RawRestApi, parse_raw_config, parsed, refused,
}
use domiform.Compile.Lowering.{
  Scope, Sheet, DeviceDef, DeviceEvent, Lowering, pure, ◌>>=◌, ◌>>◌, push,
}
use domiform.Compile.Plugins.{AdapterPlugin, AdapterDef, Calendar}
use domiform.Compile.Resolve.Adapters.{resolve_adapters, to_u32}
use domiform.Compile.Resolve.Devices.{resolve_devices, no_tables, DeviceTables}
use domiform.Compile.Resolve.Schedules.{CompiledSchedule, resolve_schedules}
use domiform.Compile.Resolve.Rules.{CompiledScene, index_scenes, lower_scenes, lower_rules}
use domiform.Compile.Resolve.Lints.{
  lint_unused_adapters, check_exposes, check_devices, lint_scenes, lint_schedules, lint_keys,
  lint_no_devices, difference, look,
}

pub record SystemConfig (Float : Type 0) : Type 0 where
  pub name : Option Text
  pub timezone : Text
  pub latitude : Float
  pub longitude : Float
  pub runtime_storage_path : Option Text
  pub healthcheck : Option RawHealthcheck
  pub rest_api : Option RawRestApi

-- `PathBuf`s are texts.
unfoldable pub runtime_storage_dir : {Float : Type 0} → SystemConfig Float → Text → Text
runtime_storage_dir system config_dir = elim system.runtime_storage_path [
  | some p ↦ p
  | none ↦ config_dir
]

pub record CompiledConfig (Float Value S N : Type 0) : Type 0 where
  pub system : SystemConfig Float
  pub adapters : List (AdapterDef Value S N)
  pub devices : List DeviceDef
  pub scenes : List CompiledScene
  pub schedules : List CompiledSchedule
  pub rules : List Rule
  pub warnings : List Diagnostic
  pub adapter_index : Assoc Text AdapterIdx
  pub device_index : Assoc Text DeviceId
  pub scene_index : Assoc Text SceneId
  pub schedule_index : Assoc Text ScheduleId
  pub clock_device : DeviceId

module _ {Float Value S N : Type 0} (cfg : CompiledConfig Float Value S N) where
  unfoldable pub device_id : Text → Option DeviceId
  device_id label = lookup label cfg.device_index

  unfoldable pub adapter_idx : Text → Option AdapterIdx
  adapter_idx label = lookup label cfg.adapter_index

  unfoldable pub scene_id : Text → Option SceneId
  scene_id label = lookup label cfg.scene_index

  unfoldable pub schedule_id : Text → Option ScheduleId
  schedule_id label = lookup label cfg.schedule_index

  unfoldable pub device : DeviceId → Option DeviceDef
  device id = get_elem? cfg.devices id

  unfoldable pub action_id : DeviceId → Text → Option ActionId
  action_id id event = elim (get_elem? cfg.devices id) [
    | none ↦ none
    | some d ↦ elim (find (λ (e : DeviceEvent). e.name == event) d.events) [
      | none ↦ none
      | some e ↦ some e.id
    ]
  ]

abbrev pub or_else : {A : Type 0} → Option A → A → A
or_else none a = a
or_else (some b) a = b

abbrev pub no_diags : Sheet
no_diags = record {
  diags = [];
  scheduled_keys = [];
  referenced_keys = [];
  used_scenes = [];
  referenced_schedules = [];
}

-- The `Lowerer` that `resolve` makes.
abbrev pub scope_of : DeviceTables → Assoc Text SceneId → Assoc Text ScheduleId → Scope
scope_of tables scene_index schedule_index = record {
  devices = tables.devices;
  device_index = tables.device_index;
  scene_index = scene_index;
  schedule_index = schedule_index;
  clock_device = to_u32 (length tables.devices);
}

-- `Result<CompiledConfig, CompileErrors>`; `panicked` where the code would stop on a missing key.
pub data Compiled (A : Type 0) : Type 0 where
  compiled : A → Compiled A
  errors : List Diagnostic → Compiled A
  panicked : Compiled A

abbrev pub any_error : List Diagnostic → Bool
any_error [] = false
any_error (d ∷ ds) = is_error d || any_error ds

abbrev pub outcome :
    {Float Value S N : Type 0}
    → Option (CompiledConfig Float Value S N) × Sheet
    → Compiled (CompiledConfig Float Value S N)
outcome (some cfg, sheet) =
    if any_error sheet.diags
    then errors sheet.diags
    else compiled (record cfg { warnings = sheet.diags })
outcome (none, sheet) = panicked

-- `0.0` is a parameter, as floating-point numbers are.
module _ (y : Yaml) (S N : Type 0) (zero_float : y.Float) (calendar : Calendar)
    (plugins : List (AdapterPlugin y.Value S N)) where
  unfoldable pub system_config : RawSystem y.Float → Lowering (SystemConfig y.Float)
  system_config raw = do
    let timezone = or_else raw.timezone (bytes "UTC")
    if calendar.knows_zone timezone
        then pure tt
        else push (
            of_error (bytes "E_BAD_TIMEZONE") (
              bytes "unknown timezone '"
              ++ timezone
              ++ bytes "' (expected an IANA name like America/New_York)"))
    pure (record {
      name = raw.name;
      timezone = timezone;
      latitude = or_else raw.latitude zero_float;
      longitude = or_else raw.longitude zero_float;
      runtime_storage_path = raw.runtime_storage_path;
      healthcheck = raw.healthcheck;
      rest_api = raw.rest_api;
    })

  unfoldable pub lints :
      RawConfig y.Float y.Value
      → List (AdapterDef y.Value S N)
      → DeviceTables
      → List CompiledScene
      → List CompiledSchedule
      → Lowering (Unit {0})
  lints raw adapters tables scenes schedules = do
    lint_unused_adapters y.Value S N adapters 0 tables.used_adapters
    check_exposes y.Value S N tables.devices tables.device_index adapters
    check_devices y.Value S N tables.devices adapters
    sheet ← look
    lint_scenes scenes sheet.used_scenes
    lint_schedules schedules sheet.referenced_schedules
    lint_keys (difference sheet.referenced_keys sheet.scheduled_keys)
    lint_no_devices raw.devices

  unfoldable pub resolve_all :
      RawConfig y.Float y.Value → Lowering (CompiledConfig y.Float y.Value S N)
  resolve_all raw = do
    (adapters, adapter_index) ← resolve_adapters y.Value S N plugins raw.adapters 0 []
    tables ← resolve_devices adapter_index raw.devices no_tables
    let scene_index = index_scenes raw.scenes []
    (schedules, schedule_index) ← resolve_schedules calendar raw.schedules []
    let scope = scope_of tables scene_index schedule_index
    scenes ← lower_scenes y scope raw.scenes
    rules ← lower_rules y scope raw.rules 0
    lints raw adapters tables scenes schedules
    system ← system_config raw.system
    pure (record {
      system = system;
      adapters = adapters;
      devices = tables.devices;
      scenes = scenes;
      schedules = schedules;
      rules = rules;
      warnings = [];
      adapter_index = adapter_index;
      device_index = tables.device_index;
      scene_index = scene_index;
      schedule_index = schedule_index;
      clock_device = to_u32 (length tables.devices);
    })

  unfoldable pub resolve : RawConfig y.Float y.Value → Compiled (CompiledConfig y.Float y.Value S N)
  resolve raw = outcome (resolve_all raw no_diags)

  unfoldable pub compile_str : Text → Compiled (CompiledConfig y.Float y.Value S N)
  compile_str src = elim (parse_raw_config y src) [
    | refused e ↦ errors (of_error (bytes "E_PARSE") e ∷ [])
    | parsed raw ↦ resolve raw
  ]
