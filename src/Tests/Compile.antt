-- ===== src/Tests/Compile.antt =====
-- Tests of the model of src/compile/: one file with a light, a motion sensor and a rule.
use domiform.Base.{
  ℕ, suc, ◌+◌, ◌<◌, ◌≡◌, ◌⊎◌, inr, ◌^◌, refl, subst, Bool, true, false, Option, none, some, List,
  [], ◌∷◌, ◌++◌, ◌>>=◌, arith, length, All, set, filter,
}
use domiform.Base.Int.{ℤ, pos}
use domiform.Base.Assoc.{insert, lookup, remove}
use domiform.Base.Text.{Text, bytes, text_eq, value, starts_with, decimal}
use domiform.Model.Capability.{CapabilityKind, DeviceId, ScheduleId, is_bool, is_numeric}
use domiform.Model.Names.{from_name}
use domiform.Model.Command.{Command}
use domiform.Rule.Trigger.{Trigger, watched}
use domiform.Rule.Condition.{Condition, Conditions}
use domiform.Engine.Parts.{Adapter, Engine, mock_device, protocol}
use domiform.Engine.Sustain.Timely.{IsTimely}
use domiform.Compile.Build.Engine.{build_engine_full}
use domiform.Compile.Build.Binding.{Passes}
use domiform.Compile.Build.Routes.{IsBuilt, resolve-build_engine}
use domiform.Compile.Diagnostic.{Diagnostic, is_error, of_error, of_warning, at, error_count}
use domiform.Compile.Ast.{Yaml, Parsed, parsed, refused, RawChanged, RawConfig, RawDevice, RawRule}
use domiform.Compile.Scalars.{
  trim_start, trim_end, split_once, split_letters, parse_unsigned, duration_of, hour_minute,
}
use domiform.Compile.Lowering as L
use domiform.Compile.Triggers
use domiform.Compile.Conditions
use domiform.Compile.Commands
use domiform.Compile.Plugins.{AdapterPlugin, Calendar, southbound, plugin_for}
use domiform.Compile.Typed.Conditions.{IsYaml}
use domiform.Compile.Resolve.Config.{CompiledConfig, compiled, errors, any_error, no_diags, resolve}
use domiform.Compile.Typed.Defs.{IsScope}
use domiform.Compile.Ensures.{count}
use domiform.Compile.Total.{resolve-returns}
use domiform.Compile.Sound.Config.{IsSound, resolve-IsSound}
use domiform.Compile.Fuel.{condition_within-enough}

-- Values enough for the file.
data Node : Type 0 where
  word : Text → Node
  flag : Bool → Node
  single : Text → Node → Node
  pair : Node → Node → Node
  watch : Text → Text → Bool → Node

abbrev node_size : Node → ℕ
node_size (single k v) = suc (node_size v)
node_size (pair v w) = suc (node_size v + node_size w)
node_size _ = 0

abbrev node_word : Node → Option Text
node_word (word s) = some s
node_word _ = none

abbrev node_flag : Node → Option Bool
node_flag (flag b) = some b
node_flag _ = none

abbrev node_items : Node → Option (List Node)
node_items (pair v w) = some (v ∷ w ∷ [])
node_items _ = none

abbrev node_entries : Node → Option (List (Node × Node))
node_entries (single k v) = some ((word k, v) ∷ [])
node_entries _ = none

abbrev node_changed : Node → Parsed RawChanged
node_changed (watch d c b) = parsed (record { device = d; capability = c; to = b })
node_changed _ = refused []

abbrev nodes : Yaml
nodes = record {
  Float = ℕ;
  Value = Node;
  size = node_size;
  as_str = node_word;
  as_bool = node_flag;
  as_u64 = λ v. none;
  as_sequence = node_items;
  as_mapping = node_entries;
  get = λ m k. none;
  of_mapping = λ m. flag true;
  apply_merge = λ v. parsed v;
  from_str = λ s. refused [];
  switch_is = λ v. refused [];
  occupancy_is = λ v. refused [];
  changed = node_changed;
  crosses = λ v. refused [];
  reports = λ v. refused [];
  compare = λ v. refused [];
  set_brightness = λ v. refused [];
  decrease_brightness = λ v. refused [];
  increase_brightness = λ v. refused [];
  set_color = λ v. refused [];
  color_is = λ v. refused [];
  set_color_temperature = λ v. refused [];
  schedule_timer = λ v. refused [];
  send_ir_code = λ v. refused [];
  raw_config = λ v. refused [];
}

nodes_entry :
    (v k inner : Node) → node_entries v ≡ some ((k, inner) ∷ []) → node_size inner < node_size v
nodes_entry (single l w) k inner h = ground (arith, h)
nodes_entry (word s) k inner h = cc
nodes_entry (flag b) k inner h = cc
nodes_entry (pair v w) k inner h = cc
nodes_entry (watch d c b) k inner h = cc

nodes_items :
    (v : Node) (items : List Node)
    → node_items v ≡ some items
    → All (λ item. node_size item < node_size v) items
nodes_items (pair v w) items h =
    let same : v ∷ w ∷ [] ≡ items = cc h in
    subst (All λ item. node_size item < node_size (pair v w)) same (omega arith, (omega arith, tt))
nodes_items (single l w) items h = cc
nodes_items (word s) items h = cc
nodes_items (flag b) items h = cc
nodes_items (watch d c b) items h = cc

nodes-IsYaml : IsYaml nodes
nodes-IsYaml = record { entry_smaller = nodes_entry; items_smaller = nodes_items }

abbrev by_day : Node
by_day = single (bytes "all") (
    pair (single (bytes "sun_up") (flag true))
      (single (bytes "not") (single (bytes "sun_up") (flag false))))

abbrev empty_scope : L.Scope
empty_scope = record {
  devices = [];
  device_index = [];
  scene_index = [];
  schedule_index = [];
  clock_device = 0;
}

empty_scope-IsScope : IsScope empty_scope
unfolding lookup
empty_scope-IsScope = record { device_below = λ label id impossible. cc; clock_last = refl }

condition_within-enough_example :
    ((count no_diags
        < count
            (Conditions.condition_within nodes empty_scope
              (bytes "rule 'night'")
              9
              by_day
              no_diags).1)
      ⊎ ((c : Condition) × ((Conditions.condition_within nodes empty_scope
              (bytes "rule 'night'")
              9
              by_day
              no_diags).0
            ≡ some c)))
    × (Conditions.condition_within nodes empty_scope (bytes "rule 'night'") 9 by_day
        ≡ Conditions.condition nodes empty_scope (bytes "rule 'night'") by_day)
condition_within-enough_example =
    condition_within-enough nodes empty_scope (bytes "rule 'night'") nodes-IsYaml 9 by_day no_diags
      empty_scope-IsScope (omega arith)

abbrev mock_plugin : AdapterPlugin Node (Unit {0}) (Unit {0})
mock_plugin = record {
  type_tag = bytes "mock";
  polarity = southbound;
  expose_spec = λ config. none;
  validate_config = λ config context. [];
  validate_device = λ config device context. [];
  build = λ config devices. mock_device;
  build_northbound = λ config exposed label dir. none;
}

abbrev lenient : Calendar
lenient = record { knows_zone = λ zone. true; cron_error = λ cron. none }

abbrev raw_device : Text → RawDevice
raw_device capability = record {
  adapter = bytes "z";
  address = none;
  endpoint = none;
  capabilities = capability ∷ [];
  events = [];
  manufacturer = none;
  model = none;
  room = none;
}

abbrev raw_rule : RawRule Node
raw_rule = record {
  when = single (bytes "changed") (watch (bytes "motion") (bytes "occupancy") true);
  condition = some by_day;
  for_duration = some (bytes "5m");
  then = single (bytes "turn_on") (word (bytes "lamp")) ∷ [];
}

abbrev home : RawConfig ℕ Node
home = record {
  system = record {
    name = none;
    timezone = none;
    latitude = none;
    longitude = none;
    runtime_storage_path = none;
    healthcheck = none;
    rest_api = none;
  };
  adapters = (bytes "z", record { kind = bytes "mock"; config = flag true }) ∷ [];
  devices =
      (bytes "lamp", raw_device (bytes "switch"))
      ∷ (bytes "motion", raw_device (bytes "occupancy"))
      ∷ [];
  scenes = [];
  schedules =
      (
        bytes "dawn",
        record { cron = none; daily = some (bytes "06:30"); weekday = none; weekend = none },
      )
      ∷ [];
  rules = (bytes "night", raw_rule) ∷ [];
}

abbrev device_def : ℕ → Text → CapabilityKind → L.DeviceDef
device_def id label capability = record {
  id = id;
  name = label;
  adapter = 0;
  address = none;
  endpoint = none;
  capabilities = capability ∷ [];
  events = [];
  metadata = record { manufacturer = none; model = none; room = none };
}

abbrev graph : CompiledConfig ℕ Node (Unit {0}) (Unit {0})
graph = record {
  system = record {
    name = none;
    timezone = bytes "UTC";
    latitude = 0;
    longitude = 0;
    runtime_storage_path = none;
    healthcheck = none;
    rest_api = none;
  };
  adapters = record { name = bytes "z"; plugin = some mock_plugin; config = flag true } ∷ [];
  devices =
      device_def 0 (bytes "lamp") CapabilityKind.switch
      ∷ device_def 1 (bytes "motion") CapabilityKind.occupancy
      ∷ [];
  scenes = [];
  schedules = record { id = 0; name = bytes "dawn"; cron = bytes "30 6 * * *" } ∷ [];
  rules =
      record {
        id = 0;
        name = bytes "night";
        trigger = Trigger.changed 1 CapabilityKind.occupancy true;
        condition = Condition.conjunction (
            Conditions.cons (Condition.bool_equals 2 CapabilityKind.sun_up true) (
              Conditions.cons
                (Condition.negation (Condition.bool_equals 2 CapabilityKind.sun_up false))
                Conditions.nil));
        commands = Command.set_switch 0 true ∷ [];
        for_duration = some 300000;
      }
      ∷ [];
  warnings =
      at (of_warning (bytes "E_UNUSED_SCHEDULE") (bytes "schedule triggers no rule"))
        (bytes "schedule 'dawn'")
      ∷ [];
  adapter_index = (bytes "z", 0) ∷ [];
  device_index = (bytes "motion", 1) ∷ (bytes "lamp", 0) ∷ [];
  scene_index = [];
  schedule_index = (bytes "dawn", 0) ∷ [];
  clock_device = 2;
}

home_accepted :
    resolve nodes (Unit {0}) (Unit {0}) 0 lenient (mock_plugin ∷ []) home ≡ compiled graph
unfolding domiform.Compile.Commands.parse_duration domiform.Compile.Commands.parse_transition
    domiform.Compile.Commands.mireds_of domiform.Compile.Commands.parse_color_temperature
    domiform.Compile.Commands.for_duration domiform.Compile.Commands.switch_command
    domiform.Compile.Commands.toggle_command domiform.Compile.Commands.brightness_command
    domiform.Compile.Commands.decrease_command domiform.Compile.Commands.increase_command
    domiform.Compile.Commands.color_command domiform.Compile.Commands.temperature_command
    domiform.Compile.Commands.scene_command domiform.Compile.Commands.timer_command
    domiform.Compile.Commands.cancel_command domiform.Compile.Commands.ir_command
    domiform.Compile.Commands.command_of domiform.Compile.Commands.command
    domiform.Compile.Commands.commands domiform.Compile.Conditions.parse_time
    domiform.Compile.Conditions.channels domiform.Compile.Conditions.object_color
    domiform.Compile.Conditions.parse_color domiform.Compile.Conditions.sun_up_condition
    domiform.Compile.Conditions.switch_condition domiform.Compile.Conditions.occupancy_condition
    domiform.Compile.Conditions.compare_condition domiform.Compile.Conditions.color_condition
    domiform.Compile.Conditions.time_condition domiform.Compile.Conditions.leaf_condition
    domiform.Compile.Conditions.lower_items domiform.Compile.Conditions.condition_list
    domiform.Compile.Conditions.condition_of domiform.Compile.Conditions.condition_within
    domiform.Compile.Conditions.condition domiform.Compile.Diagnostic.of_error
    domiform.Compile.Diagnostic.of_warning domiform.Compile.Diagnostic.at
    domiform.Compile.Diagnostic.is_error domiform.Compile.Diagnostic.debug
    domiform.Compile.Lowering.◌>>=◌ domiform.Compile.Lowering.attempt domiform.Compile.Lowering.push
    domiform.Compile.Lowering.note_scheduled_key domiform.Compile.Lowering.note_referenced_key
    domiform.Compile.Lowering.note_used_scene domiform.Compile.Lowering.note_referenced_schedule
    domiform.Compile.Lowering.lift domiform.Compile.Lowering.error domiform.Compile.Lowering.fail
    domiform.Compile.Lowering.expect domiform.Compile.Lowering.parse_capability
    domiform.Compile.Lowering.cmp_op_of domiform.Compile.Lowering.parse_cmp_op
    domiform.Compile.Lowering.any_capability domiform.Compile.Lowering.numeric_capability
    domiform.Compile.Lowering.bool_capability domiform.Compile.Lowering.entry_of
    domiform.Compile.Lowering.single_entry domiform.Compile.Lowering.as_name
    domiform.Compile.Lowering.as_flag domiform.Compile.Lowering.accept
    domiform.Compile.Lowering.payload domiform.Compile.Lowering.declares
    domiform.Compile.Lowering.resolve_device domiform.Compile.Lowering.require_cap
    domiform.Compile.Lowering.resolve_event domiform.Compile.Plugins.plugin_for
    domiform.Compile.Resolve.Adapters.warn domiform.Compile.Resolve.Adapters.push_all
    domiform.Compile.Resolve.Adapters.check_config domiform.Compile.Resolve.Adapters.resolve_adapter
    domiform.Compile.Resolve.Adapters.resolve_adapters domiform.Compile.Resolve.Config.system_config
    domiform.Compile.Resolve.Config.lints domiform.Compile.Resolve.Config.resolve_all
    domiform.Compile.Resolve.Config.resolve domiform.Compile.Resolve.Devices.capabilities_of
    domiform.Compile.Resolve.Devices.number_events domiform.Compile.Resolve.Devices.def_of
    domiform.Compile.Resolve.Devices.add_device domiform.Compile.Resolve.Devices.warn_inert
    domiform.Compile.Resolve.Devices.resolve_raw_device
    domiform.Compile.Resolve.Devices.resolve_devices
    domiform.Compile.Resolve.Lints.lint_unused_adapters domiform.Compile.Resolve.Lints.check_known
    domiform.Compile.Resolve.Lints.check_exposed domiform.Compile.Resolve.Lints.check_expose
    domiform.Compile.Resolve.Lints.check_exposes domiform.Compile.Resolve.Lints.check_devices
    domiform.Compile.Resolve.Lints.lint_scenes domiform.Compile.Resolve.Lints.lint_schedules
    domiform.Compile.Resolve.Lints.lint_keys domiform.Compile.Resolve.Lints.lint_no_devices
    domiform.Compile.Resolve.Lints.look domiform.Compile.Resolve.Rules.index_scenes
    domiform.Compile.Resolve.Rules.lower_scenes domiform.Compile.Resolve.Rules.rule_condition
    domiform.Compile.Resolve.Rules.rule_duration domiform.Compile.Resolve.Rules.finish_rule
    domiform.Compile.Resolve.Rules.lower_rule domiform.Compile.Resolve.Rules.lower_rules
    domiform.Compile.Resolve.Schedules.cron_of domiform.Compile.Resolve.Schedules.desugar_time
    domiform.Compile.Resolve.Schedules.desugared domiform.Compile.Resolve.Schedules.only_form
    domiform.Compile.Resolve.Schedules.check_cron
    domiform.Compile.Resolve.Schedules.resolve_schedule
    domiform.Compile.Resolve.Schedules.resolve_schedules domiform.Compile.Scalars.trim_start
    domiform.Compile.Scalars.trim_end domiform.Compile.Scalars.split_once
    domiform.Compile.Scalars.split_letters domiform.Compile.Scalars.parse_unsigned
    domiform.Compile.Scalars.duration_of domiform.Compile.Scalars.hour_minute
    domiform.Compile.Triggers.bound_of domiform.Compile.Triggers.event_trigger
    domiform.Compile.Triggers.changed_trigger domiform.Compile.Triggers.crosses_trigger
    domiform.Compile.Triggers.reports_trigger domiform.Compile.Triggers.timer_trigger
    domiform.Compile.Triggers.schedule_trigger domiform.Compile.Triggers.command_failed_trigger
    domiform.Compile.Triggers.trigger_of domiform.Compile.Triggers.trigger domiform.Base.Text.value
    domiform.Base.Text.decimal domiform.Base.Assoc.lookup domiform.Base.Assoc.insert
    domiform.Base.Assoc.remove domiform.Model.Names.from_name domiform.Model.Capability.is_bool
    domiform.Rule.Trigger.watched
home_accepted = refl

resolve-IsSound_example : IsSound nodes (Unit {0}) (Unit {0}) lenient (mock_plugin ∷ []) home graph
resolve-IsSound_example =
    resolve-IsSound nodes (Unit {0}) (Unit {0}) 0 lenient (mock_plugin ∷ []) nodes-IsYaml home graph
      (omega arith) home_accepted

resolve-returns_example :
    ((cfg : CompiledConfig ℕ Node (Unit {0}) (Unit {0})) × (resolve nodes
          (Unit {0})
          (Unit {0})
          0
          lenient
          []
          home
        ≡ compiled cfg))
    ⊎ ((ds : List Diagnostic) × (any_error ds ≡ true)
        × (resolve nodes (Unit {0}) (Unit {0}) 0 lenient [] home ≡ errors ds))
resolve-returns_example = resolve-returns nodes (Unit {0}) (Unit {0}) 0 lenient [] home

abbrev still_clock : DeviceId → ℤ → Text → ℕ → ℕ → List (ScheduleId × Text) → Adapter (Unit {0})
still_clock device boot zone latitude longitude schedules = protocol tt

-- The devices' adapter is a southbound one, so debug assertions hold.
graph-Passes : Passes ℕ Node (Unit {0}) (Unit {0}) graph.devices true graph.adapters graph.devices
graph-Passes = inr (
  (record { name = bytes "z"; plugin = some mock_plugin; config = flag true }, refl, refl),
  ((record { name = bytes "z"; plugin = some mock_plugin; config = flag true }, refl, refl), tt),
)

abbrev home_clock : Adapter (Unit {0})
home_clock = protocol tt

resolve-build_engine_example :
    (e : Engine (Unit {0}) (Unit {0})) × (build_engine_full ℕ Node
        (Unit {0})
        (Unit {0})
        lenient
        still_clock
        true
        graph
        (pos 0)
        (bytes ".")
      ≡ some e)
    × IsBuilt ℕ Node (Unit {0}) (Unit {0}) home_clock graph e
    × IsTimely e
resolve-build_engine_example =
    resolve-build_engine nodes nodes-IsYaml (Unit {0}) (Unit {0}) 0 lenient (mock_plugin ∷ [])
      still_clock home graph (pos 0) (bytes ".") true (omega arith) (omega arith) (omega arith)
      graph-Passes home_accepted
