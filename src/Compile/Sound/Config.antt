-- ===== src/Compile/Sound/Config.antt =====
-- What `resolve` of src/compile/resolve.rs promises of a configuration that it accepts.
use domiform.Base.{
  ℕ, ◌<◌, ◌^◌, ◌≡◌, refl, false, Option, none, some, List, [], ◌∷◌, inl, inr, Bool-cases, arith,
  length, All, subst, get_elem?,
}
use domiform.Base.Assoc.{Assoc, lookup}
use domiform.Base.Text.{Text, text_eq}
use domiform.Model.Capability.{SceneId, ScheduleId, AdapterIdx}
use domiform.Engine.Sustain.Pending.{IsFit}
use domiform.Compile.Diagnostic.{Diagnostic, error_count}
use domiform.Compile.Ast.{Yaml, RawConfig, RawSystem}
use domiform.Compile.Lowering.{Scope, Sheet, DeviceDef}
use domiform.Compile.Plugins.{AdapterPlugin, AdapterDef, Calendar}
use domiform.Compile.Ensures.{Ensures, Held, Ensures-pure, Ensures-bind, Ensures-if, Ensures-push}
use domiform.Compile.Typed.Defs.{IsScope}
use domiform.Compile.Typed.Conditions.{IsYaml}
use domiform.Compile.Typed.References.{Any}
use domiform.Compile.Resolve.Devices.{DeviceTables, no_tables}
use domiform.Compile.Resolve.Schedules.{CompiledSchedule}
use domiform.Compile.Resolve.Rules.{CompiledScene, index_scenes}
use domiform.Compile.Resolve.Config.{
  CompiledConfig, compiled, errors, any_error, outcome, no_diags, system_config, lints, scope_of,
  resolve_all, resolve,
}
use domiform.Compile.Sound.Tables.{
  HasPlugin, Below, AreAdapters, Stands, Ensures-adapters, Extends-Stands,
}
use domiform.Compile.Sound.Devices.{TablesFit, AreDevices, Ensures-devices, Adds-AreDevices}
use domiform.Compile.Sound.Schedules.{AreCrons, Ensures-schedules}
use domiform.Compile.Sound.Rules.{
  AreScenes, AreRules, AreRules-IsFit, index_scenes-All, Ensures-scenes, Ensures-rules,
}
use domiform.Compile.Sound.Lints.{
  Ensures-look, Ensures-unused, Ensures-exposes, Ensures-check_devices, Ensures-lint_scenes,
  Ensures-lint_schedules, Ensures-lint_keys, Ensures-lint_no_devices,
}

-- The tables that rules are read with.
abbrev pub scope_in : {Float Value S N : Type 0} → CompiledConfig Float Value S N → Scope
scope_in cfg = record {
  devices = cfg.devices;
  device_index = cfg.device_index;
  scene_index = cfg.scene_index;
  schedule_index = cfg.schedule_index;
  clock_device = cfg.clock_device;
}

-- Every part of the file is there, and each reference in it is to something that supports the use.
pub record IsSound (y : Yaml) (S N : Type 0) (calendar : Calendar)
    (plugins : List (AdapterPlugin y.Value S N)) (raw : RawConfig y.Float y.Value)
    (cfg : CompiledConfig y.Float y.Value S N) : Type 0 where
  pub plugged : All (HasPlugin y.Value S N plugins) cfg.adapters
  pub adapted : AreAdapters y.Value S N plugins raw.adapters cfg.adapters
  pub indexed :
      (label : Text) (i : AdapterIdx)
      → lookup label cfg.adapter_index ≡ some i
      → Stands y.Value S N plugins cfg.adapters label i
  pub devised : AreDevices cfg.adapter_index raw.devices cfg.devices
  pub tabled : IsScope (scope_in cfg)
  pub bound : All (λ (d : DeviceDef). d.adapter < length cfg.adapters) cfg.devices
  pub placed : (i : ℕ) (d : DeviceDef) → get_elem? cfg.devices i ≡ some d → d.id ≡ i
  pub counted : length cfg.devices ≡ length raw.devices
  pub timed : AreCrons calendar cfg.schedules × (length cfg.schedules ≡ length raw.schedules)
  pub scened : AreScenes y (scope_in cfg) raw.scenes cfg.scenes
  pub ruled : AreRules y (scope_in cfg) raw.rules 0 cfg.rules

nothing-Below : (n : ℕ) → Below [] n
unfolding lookup
nothing-Below n label id impossible = cc

no_tables-fit : (n : ℕ) → TablesFit n no_tables
no_tables-fit n = record { below = nothing-Below 0; bound = tt; placed = λ i d impossible. cc }

scope_of-IsScope :
    (n : ℕ) (tables : DeviceTables) (scene_index : Assoc Text SceneId)
    (schedule_index : Assoc Text ScheduleId)
    → TablesFit n tables
    → length tables.devices < 2 ^ 32
    → IsScope (scope_of tables scene_index schedule_index)
scope_of-IsScope n tables scene_index schedule_index fit small = record {
  device_below = fit.below;
  clock_last = omega (arith, small);
}

-- With no error reported, the count is what it was.
no_errors : (ds : List Diagnostic) → any_error ds ≡ false → error_count ds ≡ 0
unfolding error_count
no_errors [] h = refl
no_errors (d ∷ ds) h = ground (arith, no_errors ds, h)

module _ (y : Yaml) (S N : Type 0) (calendar : Calendar)
    (plugins : List (AdapterPlugin y.Value S N)) (raw : RawConfig y.Float y.Value) where
  abbrev Sound : CompiledConfig y.Float y.Value S N → Type 0
  Sound = IsSound y S N calendar plugins raw

  finished :
      (cfg : CompiledConfig y.Float y.Value S N)
      (done : Option (CompiledConfig y.Float y.Value S N) × Sheet)
      → (any_error done.1.diags ≡ false → Held done.0 Sound)
      → outcome done ≡ compiled cfg
      → Sound cfg
  finished cfg (none, sheet) held accepted = cc
  finished cfg (some found, sheet) held accepted = elim (Bool-cases (any_error sheet.diags)) [
    | inl p ↦ let refused : errors sheet.diags ≡ compiled cfg = rw p at accepted in cc
    | inr p ↦
        let (given, eq, sound) = held p in
        let same : given ≡ found = cc eq in
        let s = subst Sound same sound in
        let warned : compiled (record found { warnings = sheet.diags }) ≡ compiled cfg =
          rw p at accepted in
        let arrived : record found { warnings = sheet.diags } ≡ cfg = cc warned in
        subst Sound arrived (record {
          plugged = s.plugged;
          adapted = s.adapted;
          indexed = s.indexed;
          devised = s.devised;
          tabled = s.tabled;
          bound = s.bound;
          placed = s.placed;
          counted = s.counted;
          timed = s.timed;
          scened = s.scened;
          ruled = s.ruled;
        })
  ]

module _ (y : Yaml) (S N : Type 0) (zero_float : y.Float) (calendar : Calendar)
    (plugins : List (AdapterPlugin y.Value S N)) where
  Ensures-lints :
      {H : Type 0} (raw : RawConfig y.Float y.Value) (adapters : List (AdapterDef y.Value S N))
      (tables : DeviceTables) (scenes : List CompiledScene) (schedules : List CompiledSchedule)
      → Ensures H Any (lints y S N zero_float calendar plugins raw adapters tables scenes schedules)
  unfolding lints
  Ensures-lints raw adapters tables scenes schedules =
      Ensures-bind (Ensures-unused y.Value S N adapters 0 tables.used_adapters) λ a.
        Ensures-bind (Ensures-exposes y.Value S N tables.devices tables.device_index adapters) λ b.
          Ensures-bind (Ensures-check_devices y.Value S N tables.devices adapters) λ c.
            Ensures-bind Ensures-look λ sheet. Ensures-bind (Ensures-lint_scenes scenes _) λ d.
              Ensures-bind (Ensures-lint_schedules schedules _)
                λ e. Ensures-bind (Ensures-lint_keys _) λ f. Ensures-lint_no_devices raw.devices

  Ensures-system :
      {H : Type 0} (raw : RawSystem y.Float)
      → Ensures H Any (system_config y S N zero_float calendar plugins raw)
  unfolding system_config
  Ensures-system raw =
      Ensures-bind {P = Any} (Ensures-if _ (Ensures-pure tt λ h. tt) (Ensures-push _ λ h. tt))
        λ u. Ensures-pure _ λ h. tt

  module _ (laws : IsYaml y) (raw : RawConfig y.Float y.Value) where
    Ensures-all :
        Ensures
          (length raw.devices < 2 ^ 32)
          (IsSound y S N calendar plugins raw)
          (resolve_all y S N zero_float calendar plugins raw)
    unfolding resolve_all
    Ensures-all =
        Ensures-bind (Ensures-adapters y.Value S N plugins raw.adapters 0 [] λ h. nothing-Below 0)
          λ (adapters, adapter_index).
            Ensures-bind
              (Ensures-devices adapter_index (length adapters) raw.devices no_tables λ h. (
                λ l k found. omega (arith, h.1.1 l k found),
                no_tables-fit (length adapters),
                omega (arith, h.0),
              ))
              λ tables.
                Ensures-bind (Ensures-schedules calendar raw.schedules [])
                  λ (schedules, schedule_index).
                    let scene_index = index_scenes raw.scenes [] in
                    Ensures-bind
                      (Ensures-scenes y laws _ raw.scenes
                        (λ h.
                          scope_of-IsScope _ tables scene_index schedule_index h.0.1.0
                            (omega (arith, h.0.1.1, h.0.0.0)))
                        λ h. index_scenes-All raw.scenes [])
                      λ scenes.
                        Ensures-bind
                          (Ensures-rules y laws _ raw.rules 0 λ h.
                            scope_of-IsScope _ tables scene_index schedule_index h.0.0.1.0
                              (omega (arith, h.0.0.1.1, h.0.0.0.0)))
                          λ rules.
                            Ensures-bind (Ensures-lints raw adapters tables scenes schedules) λ u.
                              Ensures-bind (Ensures-system raw.system) λ system. Ensures-pure _ λ h.
                                let given = h.0.0 in
                                record {
                                  plugged = given.0.0.0.0.1.0;
                                  adapted = given.0.0.0.0.1.2;
                                  indexed =
                                      Extends-Stands y.Value S N plugins adapter_index adapters
                                        given.0.0.0.0.1.3;
                                  devised =
                                      Adds-AreDevices adapter_index raw.devices tables.devices
                                        given.0.0.0.1.2;
                                  tabled =
                                      scope_of-IsScope _ tables scene_index schedule_index
                                        given.0.0.0.1.0
                                        (omega (arith, given.0.0.0.1.1, given.0.0.0.0.0));
                                  bound = given.0.0.0.1.0.bound;
                                  placed = given.0.0.0.1.0.placed;
                                  counted = omega (arith, given.0.0.0.1.1);
                                  timed = given.0.0.1;
                                  scened = given.0.1;
                                  ruled = given.1;
                                }

    -- A file with fewer than 2^32 devices that `resolve` accepts, with a library whose values are bigger than
    -- their parts, gives a graph of the file's parts. The adapters are the file's, in order, each with its name,
    -- its configuration and the plugin of its type, which exists; the adapter table leads a name to an adapter
    -- of that name. The devices are the file's, in order, each with its name, the capabilities that its words
    -- name, its id for its place, and the index under which the table has the adapter that it names (of either
    -- polarity); the clock comes after them. There are as many schedules as in the file, each an expression
    -- that parses. Each scene has a typed command for each of its values, and each rule has its number, its
    -- name, a typed trigger and condition, a typed command for each of its values, and its `for:` duration, on
    -- an edge trigger only.
    pub resolve-IsSound :
        (cfg : CompiledConfig y.Float y.Value S N)
        → length raw.devices < 2 ^ 32
        → resolve y S N zero_float calendar plugins raw ≡ compiled cfg
        → IsSound y S N calendar plugins raw cfg
    unfolding resolve error_count
    resolve-IsSound cfg small accepted =
        finished y S N calendar plugins raw cfg
          (resolve_all y S N zero_float calendar plugins raw no_diags)
          (λ clean. Ensures-all.returns no_diags (no_errors _ clean) small) accepted

    -- The rules of a file with fewer than 2^32 devices and rules that `resolve` accepts are fit for the
    -- engine: a `for:` duration stands on an edge trigger only, and a rule's id finds that rule.
    pub resolve-IsFit :
        (cfg : CompiledConfig y.Float y.Value S N)
        → length raw.devices < 2 ^ 32
        → length raw.rules < 2 ^ 32
        → resolve y S N zero_float calendar plugins raw ≡ compiled cfg
        → IsFit cfg.rules
    resolve-IsFit cfg small few accepted =
        AreRules-IsFit y (scope_in cfg) raw.rules cfg.rules few
          (resolve-IsSound cfg small accepted).ruled
