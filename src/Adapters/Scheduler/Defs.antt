-- ===== src/Adapters/Scheduler/Defs.antt =====
-- The state and operations of src/adapters/scheduler.rs.
use Prim.Native.Nat.{compare, Ordering}
use domiform.Base.{
  ◌+◌, ◌-◌, ◌%◌, ◌^◌, min, Bool, true, false, Option, none, some, List, [], ◌∷◌, map, filter, leb,
}
use domiform.Base.Assoc.{Assoc, insert, remove}
use domiform.Base.Sort.{sort}
use domiform.Base.Text.{text_eq, text_leb}
use domiform.Model.Capability.{Millis}
use domiform.Model.Command.{TimerKey, Command, Event}
use domiform.Adapters.Outcome.{DispatchOutcome, done}

pub record SchedulerAdapter : Type 0 where
  pub pending : Assoc TimerKey Millis

-- `self.pending.insert(key, now + after)`, in u64.
unfoldable pub schedule : SchedulerAdapter → TimerKey → Millis → Millis → SchedulerAdapter
schedule s key after now = record { pending = insert key ((now + after) % 2 ^ 64) s.pending }

unfoldable pub cancel : SchedulerAdapter → TimerKey → SchedulerAdapter
cancel s key = record { pending = remove key s.pending }

unfoldable pub dispatch : SchedulerAdapter → Command → Millis → SchedulerAdapter × DispatchOutcome
unfolding schedule cancel
dispatch s (Command.schedule_timer key after) now = (schedule s key after now, done)
dispatch s (Command.cancel_timer key) now = (cancel s key, done)
dispatch s _ now = (s, done)

abbrev pub is_due : Millis → TimerKey × Millis → Bool
is_due now (key, fire_at) = leb fire_at now

abbrev pub swap : TimerKey × Millis → Millis × TimerKey
swap (key, fire_at) = (fire_at, key)

-- By fire time, then by key.
unfoldable pub entry_leb : Millis × TimerKey → Millis × TimerKey → Bool
entry_leb (t, k) (u, l) = elim (compare t u) [
  | Ordering.lt ↦ true
  | Ordering.eq ↦ text_leb k l
  | Ordering.gt ↦ false
]

-- The due timers, in the order in which they are reported.
unfoldable pub due : SchedulerAdapter → Millis → List (Millis × TimerKey)
due s now = sort entry_leb (map swap (filter (is_due now) s.pending))

unfoldable pub remove_all : List (Millis × TimerKey) → Assoc TimerKey Millis → Assoc TimerKey Millis
remove_all [] m = m
remove_all ((t, k) ∷ es) m = remove_all es (remove k m)

abbrev pub elapsed : Millis × TimerKey → Event
elapsed (t, k) = Event.timer_elapsed k

unfoldable pub tick : SchedulerAdapter → Millis → SchedulerAdapter × List Event
tick s now = (record { pending = remove_all (due s now) s.pending }, map elapsed (due s now))

-- `self.pending.values().min()`
unfoldable pub soonest : Assoc TimerKey Millis → Option Millis
soonest [] = none
soonest ((k, t) ∷ m) = elim (soonest m) [ none ↦ some t | some u ↦ some (min t u) ]

-- `-` on ℕ is `saturating_sub`.
unfoldable pub next_wake : SchedulerAdapter → Millis → Option Millis
next_wake s now = elim (soonest s.pending) [ none ↦ none | some fire_at ↦ some (fire_at - now) ]
