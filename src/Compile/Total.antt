-- ===== src/Compile/Total.antt =====
-- `resolve` of src/compile/resolve.rs always comes to its end: a call that reports an error is looked at, and
-- no index is out of a table.
use domiform.Base.{
  ℕ, suc, ◌≡◌, refl, true, Option, none, some, List, [], ◌∷◌, inl, inr, ◌⊎◌, Option-cases,
  Bool-cases, All,
}
use domiform.Base.Assoc.{Assoc, lookup}
use domiform.Base.Text.{Text, text_eq}
use domiform.Model.Capability.{AdapterIdx, RuleId, SceneId, ScheduleId}
use domiform.Model.Command.{Command}
use domiform.Rule.Trigger.{Trigger}
use domiform.Rule.Condition.{Condition}
use domiform.Compile.Diagnostic.{Diagnostic}
use domiform.Compile.Ast.{Yaml, RawAdapter, RawDevice, RawSchedule, RawRule, RawSystem, RawConfig}
use domiform.Compile.Lowering.{Scope, Sheet, DeviceDef}
use domiform.Compile.Commands.{commands}
use domiform.Compile.Plugins.{
  AdapterPlugin, AdapterDef, Calendar, plugin_for, ExposeSpec, all, named,
}
use domiform.Compile.Resolve.Adapters.{check_config, resolve_adapter, resolve_adapters}
use domiform.Compile.Resolve.Devices.{
  DeviceTables, no_tables, capabilities_of, warn_inert, resolve_raw_device, resolve_devices,
}
use domiform.Compile.Resolve.Schedules.{CompiledSchedule, resolve_schedules}
use domiform.Compile.Resolve.Rules.{
  CompiledScene, lower_scenes, rule_duration, finish_rule, lower_rule, lower_rules,
}
use domiform.Compile.Resolve.Lints.{
  lint_unused_adapters, check_known, check_exposed, check_expose, check_exposes, check_devices,
  lint_scenes, lint_schedules, lint_keys, lint_no_devices,
}
use domiform.Compile.Resolve.Config.{
  system_config, lints, resolve_all, resolve, CompiledConfig, compiled, errors, outcome, any_error,
  no_diags,
}
use domiform.Compile.Sound.Rules.{Has, index_scenes-All}
use domiform.Compile.Returns.{
  Returns, Returns-pure, Returns-bind, Returns-if, Returns-attempt, Returns-lift, Returns-push,
  Returns-error, Returns-warn, Returns-push_all, Returns-look,
}

module _ (Value S N : Type 0) (plugins : List (AdapterPlugin Value S N)) where
  Returns-check :
      (plugin : Option (AdapterPlugin Value S N)) (label : Text) (raw : RawAdapter Value)
      → Returns (check_config Value S N plugins plugin label raw)
  unfolding check_config
  Returns-check none label raw = Returns-error _ _ _
  Returns-check (some p) label raw = Returns-push_all _

  Returns-adapters :
      (raws : List (Text × RawAdapter Value)) (count : ℕ) (index : Assoc Text AdapterIdx)
      → Returns (resolve_adapters Value S N plugins raws count index)
  unfolding resolve_adapters resolve_adapter
  Returns-adapters [] count index = Returns-pure ([], index)
  Returns-adapters ((label, raw) ∷ rest) count index =
      Returns-bind
        (Returns-bind (Returns-check (plugin_for plugins raw.kind) label raw) λ u. Returns-pure _)
        λ adapter.
          Returns-bind (Returns-adapters rest _ _)
            λ (more, index'). Returns-pure (adapter ∷ more, index')

Returns-capabilities : (context : Text) (caps : List Text) → Returns (capabilities_of context caps)
unfolding capabilities_of
Returns-capabilities context [] = Returns-pure []
Returns-capabilities context (cap ∷ caps) =
    Returns-bind (Returns-attempt _)
      λ k. Returns-bind (Returns-capabilities context caps) λ ks. Returns-pure _

Returns-devices :
    (index : Assoc Text AdapterIdx) (raws : List (Text × RawDevice)) (t : DeviceTables)
    → Returns (resolve_devices index raws t)
unfolding resolve_devices resolve_raw_device warn_inert
Returns-devices index [] t = Returns-pure t
Returns-devices index ((label, raw) ∷ rest) t =
    Returns-bind
      (Returns-bind (Returns-attempt _) λ adapter. Returns-bind (Returns-capabilities _ _) λ caps.
        Returns-bind (Returns-if _ (Returns-warn _ _ _) (Returns-pure tt)) λ u. Returns-pure _)
      λ t'. Returns-devices index rest t'

Returns-schedules :
    (calendar : Calendar) (raws : List (Text × RawSchedule)) (index : Assoc Text ScheduleId)
    → Returns (resolve_schedules calendar raws index)
unfolding resolve_schedules
Returns-schedules calendar [] index = Returns-pure ([], index)
Returns-schedules calendar ((label, raw) ∷ rest) index = Returns-bind (Returns-attempt _) λ cron.
    Returns-bind (Returns-schedules calendar rest _) λ (more, index'). Returns-pure (_, index')

module _ (y : Yaml) (scope : Scope) where
  Returns-commands : (context : Text) (vs : List y.Value) → Returns (commands y scope context vs)
  unfolding commands
  Returns-commands context [] = Returns-pure []
  Returns-commands context (v ∷ vs) =
      Returns-bind (Returns-attempt _)
        λ c. Returns-bind (Returns-commands context vs) λ rest. Returns-pure _

  Returns-scenes :
      (raws : List (Text × List y.Value))
      → All (λ (e : Text × List y.Value). Has e.0 scope.scene_index) raws
      → Returns (lower_scenes y scope raws)
  unfolding lower_scenes
  Returns-scenes [] has = Returns-pure []
  Returns-scenes ((label, raw) ∷ rest) has = Returns-bind (Returns-commands _ raw) λ cs.
      Returns-bind (Returns-lift has.0)
        λ id. Returns-bind (Returns-scenes rest has.1) λ more. Returns-pure _

  Returns-duration :
      (context : Text) (o : Option Text) (t : Trigger) → Returns (rule_duration y scope context o t)
  unfolding rule_duration
  Returns-duration context none t = Returns-pure none
  Returns-duration context (some raw) t = Returns-attempt _

  Returns-finish :
      (id : RuleId) (label : Text) (raw : RawRule y.Value) (t : Option Trigger)
      (c : Option Condition) (cs : List Command)
      → Returns (finish_rule y scope id label raw t c cs)
  unfolding finish_rule
  Returns-finish id label raw (some t) (some c) cs =
      Returns-bind (Returns-duration _ raw.for_duration t) λ after. Returns-pure _
  Returns-finish id label raw (some t) none cs = Returns-pure none
  Returns-finish id label raw none c cs = Returns-pure none

  Returns-rules :
      (raws : List (Text × RawRule y.Value)) (i : ℕ) → Returns (lower_rules y scope raws i)
  unfolding lower_rules lower_rule
  Returns-rules [] i = Returns-pure []
  Returns-rules ((label, raw) ∷ rest) i =
      Returns-bind
        (Returns-bind (Returns-attempt _) λ t.
          Returns-bind (Returns-attempt _)
            λ c. Returns-bind (Returns-commands _ raw.then) λ cs. Returns-finish _ label raw t c cs)
        λ r. Returns-bind (Returns-rules rest (suc i)) λ more. Returns-pure _

module _ (Value S N : Type 0) where
  Returns-unused :
      (adapters : List (AdapterDef Value S N)) (i : ℕ) (used : List AdapterIdx)
      → Returns (lint_unused_adapters Value S N adapters i used)
  unfolding lint_unused_adapters
  Returns-unused [] i used = Returns-pure tt
  Returns-unused (adapter ∷ rest) i used =
      Returns-bind (Returns-if _ (Returns-warn _ _ _) (Returns-pure tt))
        λ u. Returns-unused rest (suc i) used

  module _ (devices : List DeviceDef) (index : Assoc Text ℕ) where
    Returns-known : (context n : Text) → Returns (check_known Value S N devices index context n)
    unfolding check_known
    Returns-known context n = elim (Option-cases (lookup n index)) [
      | inl p ↦ rw (check_known, p) (Returns-error _ _ _)
      | inr (d, p) ↦ rw (check_known, p) (Returns-pure tt)
    ]

    Returns-exposed :
        (context : Text) (ns : List Text)
        → Returns (check_exposed Value S N devices index context ns)
    unfolding check_exposed
    Returns-exposed context [] = Returns-pure tt
    Returns-exposed context (n ∷ ns) =
        Returns-bind (Returns-known context n) λ u. Returns-exposed context ns

    Returns-expose :
        (context : Text) (spec : Option ExposeSpec)
        → Returns (check_expose Value S N devices index context spec)
    unfolding check_expose
    Returns-expose context none = Returns-pure tt
    Returns-expose context (some all) = Returns-if _ (Returns-warn _ _ _) (Returns-pure tt)
    Returns-expose context (some (named names)) =
        Returns-bind (Returns-if _ (Returns-warn _ _ _) (Returns-pure tt))
          λ u. Returns-exposed context names

    Returns-exposes :
        (adapters : List (AdapterDef Value S N))
        → Returns (check_exposes Value S N devices index adapters)
    unfolding check_exposes
    Returns-exposes [] = Returns-pure tt
    Returns-exposes (adapter ∷ rest) = Returns-bind (Returns-expose _ _) λ u. Returns-exposes rest

  Returns-check_devices :
      (devices : List DeviceDef) (adapters : List (AdapterDef Value S N))
      → Returns (check_devices Value S N devices adapters)
  unfolding check_devices
  Returns-check_devices [] adapters = Returns-pure tt
  Returns-check_devices (d ∷ rest) adapters =
      Returns-bind (Returns-push_all _) λ u. Returns-check_devices rest adapters

Returns-lint_scenes :
    (scenes : List CompiledScene) (used : List SceneId) → Returns (lint_scenes scenes used)
unfolding lint_scenes
Returns-lint_scenes [] used = Returns-pure tt
Returns-lint_scenes (s ∷ rest) used =
    Returns-bind (Returns-if _ (Returns-pure tt) (Returns-warn _ _ _))
      λ u. Returns-lint_scenes rest used

Returns-lint_schedules :
    (schedules : List CompiledSchedule) (used : List ScheduleId)
    → Returns (lint_schedules schedules used)
unfolding lint_schedules
Returns-lint_schedules [] used = Returns-pure tt
Returns-lint_schedules (s ∷ rest) used =
    Returns-bind (Returns-if _ (Returns-pure tt) (Returns-warn _ _ _))
      λ u. Returns-lint_schedules rest used

Returns-lint_keys : (keys : List Text) → Returns (lint_keys keys)
unfolding lint_keys
Returns-lint_keys [] = Returns-pure tt
Returns-lint_keys (k ∷ rest) = Returns-bind (Returns-push _) λ u. Returns-lint_keys rest

Returns-no_devices : {A : Type 0} (raw : List A) → Returns (lint_no_devices raw)
unfolding lint_no_devices
Returns-no_devices raw = Returns-if _ (Returns-push _) (Returns-pure tt)

module _ (y : Yaml) (S N : Type 0) (zero_float : y.Float) (calendar : Calendar)
    (plugins : List (AdapterPlugin y.Value S N)) where
  Returns-lints :
      (raw : RawConfig y.Float y.Value) (adapters : List (AdapterDef y.Value S N))
      (tables : DeviceTables) (scenes : List CompiledScene) (schedules : List CompiledSchedule)
      → Returns (lints y S N zero_float calendar plugins raw adapters tables scenes schedules)
  unfolding lints
  Returns-lints raw adapters tables scenes schedules =
      Returns-bind (Returns-unused y.Value S N adapters 0 tables.used_adapters) λ a.
        Returns-bind (Returns-exposes y.Value S N tables.devices tables.device_index adapters) λ b.
          Returns-bind (Returns-check_devices y.Value S N tables.devices adapters) λ c.
            Returns-bind Returns-look λ sheet. Returns-bind (Returns-lint_scenes scenes _) λ d.
              Returns-bind (Returns-lint_schedules schedules _)
                λ e. Returns-bind (Returns-lint_keys _) λ f. Returns-no_devices raw.devices

  Returns-system :
      (raw : RawSystem y.Float) → Returns (system_config y S N zero_float calendar plugins raw)
  unfolding system_config
  Returns-system raw =
      Returns-bind (Returns-if _ (Returns-pure tt) (Returns-push _)) λ u. Returns-pure _

  pub Returns-all :
      (raw : RawConfig y.Float y.Value)
      → Returns (resolve_all y S N zero_float calendar plugins raw)
  unfolding resolve_all
  Returns-all raw =
      Returns-bind (Returns-adapters y.Value S N plugins raw.adapters 0 [])
        λ (adapters, adapter_index).
          Returns-bind (Returns-devices adapter_index raw.devices no_tables) λ tables.
            Returns-bind (Returns-schedules calendar raw.schedules [])
              λ (schedules, schedule_index).
                Returns-bind (Returns-scenes y _ raw.scenes (index_scenes-All raw.scenes []))
                  λ scenes. Returns-bind (Returns-rules y _ raw.rules 0) λ rules.
                    Returns-bind (Returns-lints raw adapters tables scenes schedules)
                      λ u. Returns-bind (Returns-system raw.system) λ system. Returns-pure _

outcome-returns :
    {Float Value S N : Type 0} (done : Option (CompiledConfig Float Value S N) × Sheet)
    → (cfg : CompiledConfig Float Value S N) × (done.0 ≡ some cfg)
    → ((cfg : CompiledConfig Float Value S N) × (outcome done ≡ compiled cfg))
      ⊎ ((ds : List Diagnostic) × (any_error ds ≡ true) × (outcome done ≡ errors ds))
outcome-returns (none, sheet) (cfg, impossible) = cc
outcome-returns (some cfg, sheet) held = elim (Bool-cases (any_error sheet.diags)) [
  | inl p ↦ inr (sheet.diags, p, rw p refl)
  | inr p ↦ inl (record cfg { warnings = sheet.diags }, rw p refl)
]

-- For every file, `resolve` comes to a graph or to a list of diagnostics with an error among them: it never
-- stops on a key that is missing from its tables, also where errors were reported before.
pub resolve-returns :
    (y : Yaml) (S N : Type 0) (zero_float : y.Float) (calendar : Calendar)
    (plugins : List (AdapterPlugin y.Value S N)) (raw : RawConfig y.Float y.Value)
    → ((cfg : CompiledConfig y.Float y.Value S N) × (resolve y S N zero_float calendar plugins raw
          ≡ compiled cfg))
      ⊎ ((ds : List Diagnostic) × (any_error ds ≡ true)
          × (resolve y S N zero_float calendar plugins raw ≡ errors ds))
unfolding resolve
resolve-returns y S N zero_float calendar plugins raw =
    outcome-returns (resolve_all y S N zero_float calendar plugins raw no_diags)
      ((Returns-all y S N zero_float calendar plugins raw).given no_diags)
