-- ===== src/Compile/Sound/Lints.antt =====
-- The lints of src/compile/resolve.rs take no error back, and return.
use domiform.Base.{ℕ, suc, Option, none, some, List, [], ◌∷◌, inl, inr, Option-cases, refl, arith}
use domiform.Base.Assoc.{Assoc, lookup}
use domiform.Base.Text.{Text, text_eq}
use domiform.Model.Capability.{DeviceId, AdapterIdx, SceneId, ScheduleId}
use domiform.Compile.Lowering.{DeviceDef, pure, ◌>>=◌, Lowering}
use domiform.Compile.Plugins.{AdapterDef, ExposeSpec, all, named}
use domiform.Compile.Ensures.{
  Ensures, Ensures-pure, Ensures-bind, Ensures-if, Ensures-error, Ensures-push, Ensures-weaken,
}
use domiform.Compile.Typed.References.{Any}
use domiform.Compile.Sound.Tables.{Ensures-warn, Ensures-push_all}
use domiform.Compile.Resolve.Lints.{
  lint_unused_adapters, check_known, check_exposed, check_expose, check_exposes, check_devices,
  lint_scenes, lint_schedules, lint_keys, lint_no_devices, look,
}
use domiform.Compile.Resolve.Schedules.{CompiledSchedule}
use domiform.Compile.Resolve.Rules.{CompiledScene}

-- Two checks in a row.
Ensures-both :
    {H : Type 0} {m n : Lowering (Unit {0})}
    → Ensures H Any m
    → Ensures H Any n
    → Ensures H Any (m >>= λ _. n)
Ensures-both first second =
    Ensures-bind first λ done. Ensures-weaken (λ h. h.0) (λ u h p. tt) second

module _ {H : Type 0} where
  Ensures-done : Ensures H Any (pure tt)
  Ensures-done = Ensures-pure tt λ h. tt

  pub Ensures-look : Ensures H Any look
  unfolding look
  Ensures-look = record {
    grows = λ sheet. omega arith;
    returns = λ sheet same h. (sheet, refl, tt);
  }

  module _ (Value S N : Type 0) where
    pub Ensures-unused :
        (adapters : List (AdapterDef Value S N)) (idx : ℕ) (used : List AdapterIdx)
        → Ensures H Any (lint_unused_adapters Value S N adapters idx used)
    unfolding lint_unused_adapters
    Ensures-unused [] idx used = Ensures-done
    Ensures-unused (adapter ∷ rest) idx used =
        Ensures-both (Ensures-if _ (Ensures-warn _ _ _) Ensures-done)
          (Ensures-unused rest (suc idx) used)

    module _ (devices : List DeviceDef) (device_index : Assoc Text DeviceId) where
      Ensures-known :
          (context n : Text) → Ensures H Any (check_known Value S N devices device_index context n)
      unfolding check_known
      Ensures-known context n = elim (Option-cases (lookup n device_index)) [
        | inl p ↦ rw (check_known, p) (Ensures-error _ _ _)
        | inr (id, p) ↦ rw (check_known, p) Ensures-done
      ]

      Ensures-exposed :
          (context : Text) (names : List Text)
          → Ensures H Any (check_exposed Value S N devices device_index context names)
      unfolding check_exposed
      Ensures-exposed context [] = Ensures-done
      Ensures-exposed context (n ∷ ns) =
          Ensures-both (Ensures-known context n) (Ensures-exposed context ns)

      Ensures-expose :
          (context : Text) (spec : Option ExposeSpec)
          → Ensures H Any (check_expose Value S N devices device_index context spec)
      unfolding check_expose
      Ensures-expose context none = Ensures-done
      Ensures-expose context (some all) = Ensures-if _ (Ensures-warn _ _ _) Ensures-done
      Ensures-expose context (some (named names)) =
          Ensures-both (Ensures-if _ (Ensures-warn _ _ _) Ensures-done)
            (Ensures-exposed context names)

      pub Ensures-exposes :
          (adapters : List (AdapterDef Value S N))
          → Ensures H Any (check_exposes Value S N devices device_index adapters)
      unfolding check_exposes
      Ensures-exposes [] = Ensures-done
      Ensures-exposes (adapter ∷ rest) = Ensures-both (Ensures-expose _ _) (Ensures-exposes rest)

    pub Ensures-check_devices :
        (devices : List DeviceDef) (adapters : List (AdapterDef Value S N))
        → Ensures H Any (check_devices Value S N devices adapters)
    unfolding check_devices
    Ensures-check_devices [] adapters = Ensures-done
    Ensures-check_devices (device ∷ rest) adapters =
        Ensures-both (Ensures-push_all _) (Ensures-check_devices rest adapters)

  pub Ensures-lint_scenes :
      (scenes : List CompiledScene) (used : List SceneId) → Ensures H Any (lint_scenes scenes used)
  unfolding lint_scenes
  Ensures-lint_scenes [] used = Ensures-done
  Ensures-lint_scenes (s ∷ rest) used =
      Ensures-both (Ensures-if _ Ensures-done (Ensures-warn _ _ _)) (Ensures-lint_scenes rest used)

  pub Ensures-lint_schedules :
      (schedules : List CompiledSchedule) (referenced : List ScheduleId)
      → Ensures H Any (lint_schedules schedules referenced)
  unfolding lint_schedules
  Ensures-lint_schedules [] referenced = Ensures-done
  Ensures-lint_schedules (s ∷ rest) referenced =
      Ensures-both (Ensures-if _ Ensures-done (Ensures-warn _ _ _))
        (Ensures-lint_schedules rest referenced)

  pub Ensures-lint_keys : (keys : List Text) → Ensures H Any (lint_keys keys)
  unfolding lint_keys
  Ensures-lint_keys [] = Ensures-done
  Ensures-lint_keys (key ∷ rest) = Ensures-both (Ensures-push _ λ h. tt) (Ensures-lint_keys rest)

  pub Ensures-lint_no_devices : {A : Type 0} (raw : List A) → Ensures H Any (lint_no_devices raw)
  unfolding lint_no_devices
  Ensures-lint_no_devices raw = Ensures-if _ (Ensures-push _ λ h. tt) Ensures-done
