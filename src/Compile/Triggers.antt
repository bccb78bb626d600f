-- ===== src/Compile/Triggers.antt =====
-- `trigger` of src/compile/lower.rs.
use domiform.Base.{Option, none, some, ◌++◌, if◌then◌else◌, ◌==◌}
use domiform.Base.Assoc.{lookup}
use domiform.Base.Int.{ℤ}
use domiform.Base.Text.{Text, bytes, text_eq}
use domiform.Model.Capability.{DeviceId}
use domiform.Rule.Trigger.{Trigger, CrossDir, above, below}
use domiform.Compile.Ast.{Yaml}
use domiform.Compile.Scalars.{split_once}
use domiform.Compile.Lowering.{
  Scope, Lowering, pure, ◌>>=◌, ◌>>◌, fail, expect, single_entry, as_name, payload, resolve_device,
  resolve_event, require_cap, bool_capability, numeric_capability, any_capability,
  note_referenced_key, note_referenced_schedule,
}

module _ (context : Text) where
  unfoldable pub bound_of : Option ℤ → Option ℤ → Lowering (ℤ × CrossDir)
  bound_of (some a) (some b) =
      fail context (bytes "E_BAD_CROSS")
        (bytes "'crosses' must set exactly one of `above` or `below`")
  bound_of none none =
      fail context (bytes "E_BAD_CROSS") (bytes "'crosses' needs one of `above` or `below`")
  bound_of (some v) none = pure (v, above)
  bound_of none (some v) = pure (v, below)

module _ (y : Yaml) (scope : Scope) (context : Text) where
  unfoldable pub event_trigger : y.Value → Lowering Trigger
  event_trigger v = do
    spec ← as_name y context v (bytes "event")
    (dev_name, event_name) ←
        expect context (split_once 46 spec) (bytes "E_BAD_NODE")
          (bytes "event trigger must be '<device>.<event>', got '" ++ spec ++ bytes "'")
    device ← resolve_device scope context dev_name
    action ← resolve_event scope context device dev_name event_name
    pure (Trigger.action device action)

  unfoldable pub changed_trigger : y.Value → Lowering Trigger
  changed_trigger v = do
    c ← payload y context y.changed v (bytes "changed")
    device ← resolve_device scope context c.device
    kind ← bool_capability context c.capability
    require_cap scope context device c.device kind (bytes "changed")
    pure (Trigger.changed device kind c.to)

  unfoldable pub crosses_trigger : y.Value → Lowering Trigger
  crosses_trigger v = do
    c ← payload y context y.crosses v (bytes "crosses")
    device ← resolve_device scope context c.device
    kind ← numeric_capability context c.capability
    require_cap scope context device c.device kind (bytes "crosses")
    (bound, dir) ← bound_of context c.above c.below
    pure (Trigger.crosses device kind bound dir)

  unfoldable pub reports_trigger : y.Value → Lowering Trigger
  reports_trigger v = do
    r ← payload y context y.reports v (bytes "reports")
    device ← resolve_device scope context r.device
    kind ← any_capability context r.capability
    require_cap scope context device r.device kind (bytes "reports")
    pure (Trigger.reports device kind)

  unfoldable pub timer_trigger : y.Value → Lowering Trigger
  timer_trigger v = do
    key ← as_name y context v (bytes "timer")
    note_referenced_key key
    pure (Trigger.timer key)

  unfoldable pub schedule_trigger : y.Value → Lowering Trigger
  schedule_trigger v = do
    label ← as_name y context v (bytes "schedule")
    schedule ←
        expect context (lookup label scope.schedule_index) (bytes "E_UNKNOWN_SCHEDULE")
          (bytes "unknown schedule '" ++ label ++ bytes "'")
    note_referenced_schedule schedule
    pure (Trigger.time schedule)

  abbrev failing_device : Text → Lowering (Option DeviceId)
  failing_device spec =
      if spec == bytes "*"
      then pure none
      else do device ← resolve_device scope context spec; pure (some device)

  unfoldable pub command_failed_trigger : y.Value → Lowering Trigger
  command_failed_trigger v = do
    spec ← as_name y context v (bytes "command_failed")
    device ← failing_device spec
    pure (Trigger.command_failed device)

  unfoldable pub trigger_of : Text → y.Value → Lowering Trigger
  trigger_of verb v =
      if verb == bytes "event"
      then event_trigger v
      else if verb == bytes "changed"
      then changed_trigger v
      else if verb == bytes "crosses"
      then crosses_trigger v
      else if verb == bytes "reports"
      then reports_trigger v
      else if verb == bytes "timer"
      then timer_trigger v
      else if verb == bytes "schedule"
      then schedule_trigger v
      else if verb == bytes "command_failed"
      then command_failed_trigger v
      else fail context (bytes "E_UNKNOWN_TRIGGER") (bytes "unknown trigger '" ++ verb ++ bytes "'")

  unfoldable pub trigger : y.Value → Lowering Trigger
  trigger v = do (verb, inner) ← single_entry y context v (bytes "trigger"); trigger_of verb inner
