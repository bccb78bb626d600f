-- ===== src/Compile/Typed/Triggers.antt =====
-- `trigger` of src/compile/lower.rs emits triggers that the configuration supports.
use domiform.Base.{◌≡◌, Option, none, some, refl}
use domiform.Base.Int.{ℤ}
use domiform.Base.Assoc.{lookup}
use domiform.Base.Text.{Text, text_eq}
use domiform.Rule.Trigger.{Trigger, above, below}
use domiform.Compile.Ast.{Yaml}
use domiform.Compile.Lowering.{Scope, note_referenced_key, note_referenced_schedule}
use domiform.Compile.Triggers.{
  bound_of, event_trigger, changed_trigger, crosses_trigger, reports_trigger, timer_trigger,
  schedule_trigger, command_failed_trigger, trigger_of, trigger,
}
use domiform.Compile.Ensures.{
  Ensures, Ensures-pure, Ensures-bind, Ensures-if, Ensures-fail, Ensures-expect, Ensures-note,
  Ensures-weaken,
}
use domiform.Compile.Typed.Defs.{IsScope, IsTypedTrigger}
use domiform.Compile.Typed.References.{
  Any, Ensures-numeric, Ensures-bool, Ensures-any_capability, Ensures-single_entry, Ensures-as_name,
  Ensures-payload, Ensures-device, Ensures-require, Ensures-event,
}

Ensures-bound :
    {H : Type 0} (context : Text) (a b : Option ℤ) → Ensures H Any (bound_of context a b)
unfolding bound_of
Ensures-bound context none none = Ensures-fail context _ _
Ensures-bound context (some a) none = Ensures-pure (a, above) λ h. tt
Ensures-bound context none (some b) = Ensures-pure (b, below) λ h. tt
Ensures-bound context (some a) (some b) = Ensures-fail context _ _

module _ (y : Yaml) (scope : Scope) (context : Text) {H : Type 0} (wf : H → IsScope scope) where
  Ensures-event_trigger :
      (v : y.Value) → Ensures H (IsTypedTrigger scope) (event_trigger y scope context v)
  unfolding event_trigger
  Ensures-event_trigger v = Ensures-bind (Ensures-as_name y context v _) λ spec.
      Ensures-bind {P = Any} (Ensures-expect context _ _ _ λ e eq h. tt) λ (dev_name, event_name).
        Ensures-bind (Ensures-device scope (λ h. wf h.0.0) context dev_name) λ device.
          Ensures-bind
            (Ensures-event scope (λ h. wf h.0.0.0) context device dev_name event_name λ h. h.1)
            λ action. Ensures-pure (Trigger.action device action) λ h. h.1

  Ensures-changed :
      (v : y.Value) → Ensures H (IsTypedTrigger scope) (changed_trigger y scope context v)
  unfolding changed_trigger
  Ensures-changed v = Ensures-bind (Ensures-payload y context y.changed v _) λ c.
      Ensures-bind (Ensures-device scope (λ h. wf h.0) context c.device) λ device.
        Ensures-bind (Ensures-bool context c.capability) λ k.
          Ensures-bind
            (Ensures-require scope (λ h. wf h.0.0.0) context device c.device k _ λ h. h.0.1)
            λ done. Ensures-pure (Trigger.changed device k c.to) λ h. (h.1, h.0.1)

  Ensures-crosses :
      (v : y.Value) → Ensures H (IsTypedTrigger scope) (crosses_trigger y scope context v)
  unfolding crosses_trigger
  Ensures-crosses v = Ensures-bind (Ensures-payload y context y.crosses v _) λ c.
      Ensures-bind (Ensures-device scope (λ h. wf h.0) context c.device) λ device.
        Ensures-bind (Ensures-numeric context c.capability) λ k.
          Ensures-bind
            (Ensures-require scope (λ h. wf h.0.0.0) context device c.device k _ λ h. h.0.1)
            λ done. Ensures-bind (Ensures-bound context c.above c.below) λ (bound, dir).
              Ensures-pure (Trigger.crosses device k bound dir) λ h. (h.0.1, h.0.0.1)

  Ensures-reports :
      (v : y.Value) → Ensures H (IsTypedTrigger scope) (reports_trigger y scope context v)
  unfolding reports_trigger
  Ensures-reports v = Ensures-bind (Ensures-payload y context y.reports v _) λ r.
      Ensures-bind (Ensures-device scope (λ h. wf h.0) context r.device) λ device.
        Ensures-bind (Ensures-any_capability context r.capability) λ k.
          Ensures-bind
            (Ensures-require scope (λ h. wf h.0.0.0) context device r.device k _ λ h. h.0.1)
            λ done. Ensures-pure (Trigger.reports device k) λ h. h.1

  Ensures-timer : (v : y.Value) → Ensures H (IsTypedTrigger scope) (timer_trigger y scope context v)
  unfolding timer_trigger note_referenced_key
  Ensures-timer v = Ensures-bind (Ensures-as_name y context v _) λ key.
      Ensures-bind {P = Any} (Ensures-note tt (λ sheet. (refl, refl)) λ h. tt)
        λ done. Ensures-pure (Trigger.timer key) λ h. tt

  Ensures-schedule :
      (v : y.Value) → Ensures H (IsTypedTrigger scope) (schedule_trigger y scope context v)
  unfolding schedule_trigger note_referenced_schedule
  Ensures-schedule v = Ensures-bind (Ensures-as_name y context v _) λ label.
      Ensures-bind {P = λ s. lookup label scope.schedule_index ≡ some s}
        (Ensures-expect context _ _ _ λ s eq h. eq)
        λ schedule.
          Ensures-bind {P = Any} (Ensures-note tt (λ sheet. (refl, refl)) λ h. tt)
            λ done. Ensures-pure (Trigger.time schedule) λ h. (label, h.0.1)

  Ensures-command_failed :
      (v : y.Value) → Ensures H (IsTypedTrigger scope) (command_failed_trigger y scope context v)
  unfolding command_failed_trigger
  Ensures-command_failed v = Ensures-bind (Ensures-as_name y context v _) λ spec.
      Ensures-bind {P = λ device. IsTypedTrigger scope (Trigger.command_failed device)}
        (Ensures-if _ (Ensures-pure none λ h. tt) (
          Ensures-bind (Ensures-device scope (λ h. wf h.0) context spec)
            λ device. Ensures-pure (some device) λ h. h.1))
        λ device. Ensures-pure (Trigger.command_failed device) λ h. h.1

  Ensures-trigger_of :
      (verb : Text) (v : y.Value)
      → Ensures H (IsTypedTrigger scope) (trigger_of y scope context verb v)
  unfolding trigger_of
  Ensures-trigger_of verb v = Ensures-if _ (Ensures-event_trigger v) (
      Ensures-if _ (Ensures-changed v) (
        Ensures-if _ (Ensures-crosses v) (
          Ensures-if _ (Ensures-reports v) (
            Ensures-if _ (Ensures-timer v) (
              Ensures-if _ (Ensures-schedule v)
                (Ensures-if _ (Ensures-command_failed v) (Ensures-fail context _ _)))))))

  pub Ensures-trigger : (v : y.Value) → Ensures H (IsTypedTrigger scope) (trigger y scope context v)
  unfolding trigger
  Ensures-trigger v =
      Ensures-bind (Ensures-single_entry y context v _)
        λ (verb, inner). Ensures-weaken (λ h. h.0) (λ t h p. p) (Ensures-trigger_of verb inner)
