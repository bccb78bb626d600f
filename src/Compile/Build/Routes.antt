-- ===== src/Compile/Build/Routes.antt =====
-- The engine that `build_engine_full` of src/compile/mod.rs makes of an accepted configuration.
use domiform.Base.{
  ℕ, ◌<◌, ◌≡◌, ◌^◌, refl, sym, ap, ◌∙◌, Option, none, some, List, [], ◌∷◌, ◌++◌, ◌>>=◌, arith,
  length, get_elem?, All, All-zip, subst, nat_eq, nat_beq_iff, append_assoc, append-nil, Bool,
}
use domiform.Base.Assoc.{lookup, lookup-insert, lookup-insert_same}
use domiform.Base.Int.{ℤ}
use domiform.Base.Text.{Text}
use domiform.Model.Capability.{AdapterIdx, DeviceId, ScheduleId}
use domiform.Rule.Rules.{Rule}
use domiform.Engine.Parts.{
  Engine, PendingFor, Adapter, new, add_adapter, bind_device, add_rule, add_scene,
}
use domiform.Engine.Sustain.Pending.{IsFit}
use domiform.Engine.Sustain.Timely.{IsTimely}
use domiform.Compile.Ast.{Yaml, RawConfig}
use domiform.Compile.Lowering.{DeviceDef}
use domiform.Compile.Plugins.{AdapterPlugin, AdapterDef, Calendar}
use domiform.Compile.Resolve.Rules.{CompiledScene}
use domiform.Compile.Resolve.Config.{CompiledConfig, runtime_storage_dir, resolve, compiled}
use domiform.Compile.Sound.Config.{resolve-IsSound, resolve-IsFit}
use domiform.Compile.Typed.Conditions.{IsYaml}
use domiform.Compile.Build.Engine.{
  empty_groups, add_scenes, add_rules, build_engine_full, clock_adapter,
}
use domiform.Compile.Build.Slots.{IsSlot, IsSlot-later, build_adapters-slots, get_elem?-last}
use domiform.Compile.Build.Groups.{group-some, empty_groups-length, grouped-served}
use domiform.Compile.Sound.Tables.{AreAdapters-length}
use domiform.Compile.Build.Binding.{
  Placed-from, Placed-below, get_elem?-lt, Passes, AreRouted, bind-routes,
}

module _ (Float Value S N : Type 0) where
  add_scenes-keeps :
      (ss : List CompiledScene) (e : Engine S N)
      → (add_scenes Float Value S N ss e
          ≡ record e { scenes = (add_scenes Float Value S N ss e).scenes })
  unfolding add_scenes
  add_scenes-keeps [] e = refl
  add_scenes-keeps (s ∷ ss) e = add_scenes-keeps ss (add_scene e s.id s.commands)

  add_rules-rules :
      (rs : List Rule) (e : Engine S N)
      → add_rules Float Value S N rs e ≡ record e { rules = e.rules ++ rs }
  unfolding add_rules
  add_rules-rules [] e = ap (λ rules. record e { rules = rules }) (sym (append-nil e.rules))
  add_rules-rules (r ∷ rs) e =
      add_rules-rules rs (add_rule e r)
      ∙ ap (λ rules. record e { rules = rules }) (append_assoc e.rules (r ∷ []) rs)

  -- The engine of a graph: its rules, no work at hand, and a route for each device and for the clock.
  pub record IsBuilt (clock : Adapter S) (cfg : CompiledConfig Float Value S N) (e : Engine S N)
      : Type 0 where
    pub ruled : e.rules ≡ cfg.rules
    pub queued : e.queue ≡ []
    pub pending : e.pending_for ≡ []
    pub retried : e.retries ≡ []
    pub routed : AreRouted Float Value S N cfg.devices e.adapters cfg.adapters e cfg.devices
    pub clocked :
        (slot : AdapterIdx) × (lookup cfg.clock_device e.device_to_adapter ≡ some slot)
        × (get_elem? e.adapters slot ≡ some clock)

  -- Loading scenes and rules into a bound engine.
  loaded-IsBuilt :
      (clock : Adapter S) (cfg : CompiledConfig Float Value S N) (e : Engine S N)
      → e.rules ≡ []
      → e.queue ≡ []
      → e.pending_for ≡ []
      → e.retries ≡ []
      → AreRouted Float Value S N cfg.devices e.adapters cfg.adapters e cfg.devices
      → ((slot : AdapterIdx) × (lookup cfg.clock_device e.device_to_adapter ≡ some slot)
          × (get_elem? e.adapters slot ≡ some clock))
      → IsBuilt clock cfg
          (add_rules Float Value S N cfg.rules (add_scenes Float Value S N cfg.scenes e))
  loaded-IsBuilt clock cfg e unruled queued pending retried routed clocked =
      let filled : Engine S N =
        record (record e { scenes = (add_scenes Float Value S N cfg.scenes e).scenes }) {
          rules = e.rules ++ cfg.rules;
        } in
      let whole : add_rules Float Value S N cfg.rules (add_scenes Float Value S N cfg.scenes e)
          ≡ filled =
        add_rules-rules cfg.rules (add_scenes Float Value S N cfg.scenes e)
        ∙ ap (λ (x : Engine S N). record x { rules = x.rules ++ cfg.rules })
            (add_scenes-keeps cfg.scenes e) in
      subst (IsBuilt clock cfg) (sym whole) (record {
        ruled = ap (λ rules. rules ++ cfg.rules) unruled;
        queued = queued;
        pending = pending;
        retried = retried;
        routed = routed;
        clocked = clocked;
      })

  module _ (calendar : Calendar)
      (clock : DeviceId → ℤ → Text → Float → Float → List (ScheduleId × Text) → Adapter S)
      (cfg : CompiledConfig Float Value S N) where
    pub build-IsBuilt :
        (debug : Bool) (boot_epoch_ms : ℤ) (config_dir : Text)
        → All
            (λ (adapter : AdapterDef Value S N).
              (p : AdapterPlugin Value S N) × (adapter.plugin ≡ some p))
            cfg.adapters
        → length cfg.adapters < 2 ^ 32
        → Passes Float Value S N cfg.devices debug cfg.adapters cfg.devices
        → All (λ (d : DeviceDef). d.adapter < length cfg.adapters) cfg.devices
        → ((i : ℕ) (d : DeviceDef) → get_elem? cfg.devices i ≡ some d → d.id ≡ i)
        → cfg.clock_device ≡ length cfg.devices
        → (e : Engine S N) × (build_engine_full Float Value S N calendar clock debug cfg
              boot_epoch_ms config_dir
            ≡ some e)
          × IsBuilt (clock_adapter Float Value S N calendar clock cfg boot_epoch_ms) cfg e
    unfolding build_engine_full
    build-IsBuilt debug boot_epoch_ms config_dir plugged few passes bound placed last =
        let dir = runtime_storage_dir cfg.system config_dir in
        let timed = clock_adapter Float Value S N calendar clock cfg boot_epoch_ms in
        let (groups, grouped, sized) =
          group-some (length cfg.adapters) cfg.devices (empty_groups cfg.adapters)
            (empty_groups-length cfg.adapters) bound in
        let (e, slots, built, grown, short, are) =
          build_adapters-slots Float Value S N cfg.devices cfg dir cfg.adapters groups 0 new
            (omega (arith, sized))
            (λ k g found.
              grouped-served cfg.adapters cfg.devices groups k g grouped
                (omega (arith, get_elem?-lt groups k g found, sized)) found)
            plugged in
        let in_place = Placed-from cfg.devices 0 λ k d found. omega (arith, placed k d found) in
        let (e1, done, b, routed) =
          bind-routes Float Value S N cfg.devices debug cfg.adapters slots e.adapters cfg.devices 0
            e (omega (arith, short, few)) passes are in_place bound in
        let e2 = bind_device (add_adapter e1 timed) cfg.clock_device (length e1.adapters) in
        let longer : e2.adapters ≡ e.adapters ++ timed ∷ [] =
          ap (λ xs. xs ++ timed ∷ []) b.adapted in
        (
          add_rules Float Value S N cfg.rules (add_scenes Float Value S N cfg.scenes e2),
          rw (grouped, ◌>>=◌, built, done) refl,
          loaded-IsBuilt timed cfg e2 (b.ruled ∙ grown.ruled) (b.queued ∙ grown.queued)
              (b.pending ∙ grown.pending) (b.retried ∙ grown.retried)
              (All-zip cfg.devices routed (Placed-below cfg.devices 0 in_place)
                λ d (adapter, slot, at_adapter, at_slot, is_slot) below. (
                  adapter,
                  slot,
                  at_adapter,
                  ground (
                    arith,
                    lookup-insert cfg.clock_device d.id (length e1.adapters) e1.device_to_adapter,
                    nat_beq_iff cfg.clock_device d.id,
                    last,
                    below,
                    at_slot,
                  ),
                  subst (λ xs. IsSlot Float Value S N cfg.devices xs d.adapter adapter slot)
                      (sym longer)
                      (IsSlot-later Float Value S N cfg.devices e.adapters (timed ∷ []) d.adapter
                        adapter slot is_slot),
                ))
              (
                length e1.adapters,
                lookup-insert_same cfg.clock_device (length e1.adapters) e1.device_to_adapter,
                get_elem?-last e1.adapters timed,
              ),
        )

-- A file with fewer than 2^32 devices, rules and adapters that `resolve` accepts builds without a panic where
-- debug assertions are off, and with them where each device's adapter is a southbound one, which `resolve`
-- does not check. The engine has the file's rules and nothing queued or pending. A device is routed to the
-- slot that holds what its adapter's plugin built of the adapter's configuration and of the devices bound to
-- that adapter, in their order, or, where its adapter is a northbound one, to no adapter at all; the clock is
-- routed to the slot of its adapter. The engine is ready for a run whose `for:` timers are pending only while
-- their predicates hold.
pub resolve-build_engine :
    (y : Yaml) (laws : IsYaml y) (S N : Type 0) (zero_float : y.Float) (calendar : Calendar)
    (plugins : List (AdapterPlugin y.Value S N))
    (clock : DeviceId → ℤ → Text → y.Float → y.Float → List (ScheduleId × Text) → Adapter S)
    (raw : RawConfig y.Float y.Value) (cfg : CompiledConfig y.Float y.Value S N) (boot_epoch_ms : ℤ)
    (config_dir : Text) (debug : Bool)
    → length raw.devices < 2 ^ 32
    → length raw.rules < 2 ^ 32
    → length raw.adapters < 2 ^ 32
    → Passes y.Float y.Value S N cfg.devices debug cfg.adapters cfg.devices
    → resolve y S N zero_float calendar plugins raw ≡ compiled cfg
    → (e : Engine S N) × (build_engine_full y.Float y.Value S N calendar clock debug cfg
          boot_epoch_ms config_dir
        ≡ some e)
      × IsBuilt y.Float y.Value S N
          (clock_adapter y.Float y.Value S N calendar clock cfg boot_epoch_ms)
          cfg
          e
      × IsTimely e
unfolding lookup
resolve-build_engine y laws S N zero_float calendar plugins clock raw cfg boot_epoch_ms config_dir
      debug small few narrow passes accepted =
    let sound = resolve-IsSound y S N zero_float calendar plugins laws raw cfg small accepted in
    let (e, built, is_built) =
      build-IsBuilt y.Float y.Value S N calendar clock cfg debug boot_epoch_ms config_dir
        sound.plugged
        (rw (AreAdapters-length y.Value S N plugins raw.adapters cfg.adapters sound.adapted) narrow)
        passes sound.bound sound.placed sound.tabled.clock_last in
    (
      e,
      built,
      is_built,
      record {
        fit =
            subst IsFit (sym is_built.ruled)
              (resolve-IsFit y S N zero_float calendar plugins laws raw cfg small few accepted);
        holding = λ id pending found.
            let absent : ◌≡◌ {A = Option PendingFor} none (some pending) =
              rw is_built.pending at found in
            cc;
      },
    )
