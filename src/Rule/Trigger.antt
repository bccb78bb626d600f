-- ===== src/Rule/Trigger.antt =====
-- `Trigger` of src/rule.rs: which events fire a rule, and what an edge trigger watches.
use domiform.Base.{
  Bool, true, false, not, ◌&&◌, Option, none, some, ◌>>=◌, if◌then◌else◌, ◌==◌, nat_eq, bool_eq,
  option_beq,
}
use domiform.Base.Int.{ℤ, leb_ℤ}
use domiform.Base.Text.{text_eq}
use domiform.State
use domiform.State.{StateStore}
use domiform.Model.Capability.{
  CapabilityKind, CapabilityState, DeviceId, ActionId, ScheduleId, kind, as_bool, as_i64, kind_eq,
}
use domiform.Model.Command.{TimerKey, Event, target_device}

pub data CrossDir : Type 0 where
  above below : CrossDir

pub data Trigger : Type 0 where
  action : (device : DeviceId) (action : ActionId) → Trigger
  changed : (device : DeviceId) (kind : CapabilityKind) (to : Bool) → Trigger
  crosses : (device : DeviceId) (kind : CapabilityKind) (bound : ℤ) (dir : CrossDir) → Trigger
  reports : (device : DeviceId) (kind : CapabilityKind) → Trigger
  timer : (key : TimerKey) → Trigger
  time : (schedule : ScheduleId) → Trigger
  command_failed : (device : Option DeviceId) → Trigger

-- The closure `satisfied`, and the match of `predicate_holds`.
abbrev satisfied : CrossDir → ℤ → ℤ → Bool
satisfied above bound v = leb_ℤ bound v
satisfied below bound v = leb_ℤ v bound

abbrev satisfied_or_false : CrossDir → ℤ → Option ℤ → Bool
satisfied_or_false dir bound none = false
satisfied_or_false dir bound (some v) = satisfied dir bound v

-- `prior` is the stored value before the event is folded.
unfoldable pub matches : Trigger → Event → Option CapabilityState → Bool
matches (Trigger.action device act) (Event.action d a) prior = device == d && act == a
matches (Trigger.changed device k to) (Event.state_reported d state) prior =
    device == d
    && kind state == k
    && option_beq (as_bool state) (some to)
    && not (option_beq (prior >>= as_bool) (some to))
matches (Trigger.crosses device k bound dir) (Event.state_reported d state) prior =
    if not (device == d && kind state == k)
    then false
    else satisfied_or_false dir bound (as_i64 state)
      && not (satisfied_or_false dir bound (prior >>= as_i64))
matches (Trigger.reports device k) (Event.state_reported d state) prior =
    device == d && kind state == k
matches (Trigger.timer key) (Event.timer_elapsed k) prior = key == k
matches (Trigger.time schedule) (Event.time_reached s) prior = schedule == s
matches (Trigger.command_failed none) (Event.command_failed _ _ _) prior = true
matches (Trigger.command_failed (some d)) (Event.command_failed command _ _) prior =
    option_beq (target_device command) (some d)
matches _ _ _ = false

unfoldable pub watched : Trigger → Option (DeviceId × CapabilityKind)
watched (Trigger.changed device k _) = some (device, k)
watched (Trigger.crosses device k _ _) = some (device, k)
watched _ = none

unfoldable pub predicate_holds : Trigger → StateStore → Bool
predicate_holds (Trigger.changed device k to) s = option_beq (State.bool_value s device k) (some to)
predicate_holds (Trigger.crosses device k bound dir) s =
    satisfied_or_false dir bound (State.num_value s device k)
predicate_holds _ s = false

-- Whether a trigger watches the capability that a report is about.
abbrev pub watches : Trigger → DeviceId → CapabilityKind → Bool
watches (Trigger.changed device k _) d j = device == d && j == k
watches (Trigger.crosses device k _ _) d j = device == d && j == k
watches _ d j = false

abbrev pub is_edge : Trigger → Bool
is_edge (Trigger.changed _ _ _) = true
is_edge (Trigger.crosses _ _ _ _) = true
is_edge _ = false
