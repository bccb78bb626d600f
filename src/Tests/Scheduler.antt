-- ===== src/Tests/Scheduler.antt =====
-- Tests of the model of src/adapters/scheduler.rs.
use mathlib.Core.List.Perm
use domiform.Base.{ℕ, ◌≡◌, ◌≢◌, ◌↔◌, ◌+◌, ◌≤◌, ◌<◌, refl, none, some, List, [], ◌∷◌, In, arith}
use domiform.Base.Assoc.{lookup, IsMap}
use domiform.Base.Sort.{IsSorted}
use domiform.Base.Text.{bytes, text_eq}
use domiform.Model.Capability.{Millis}
use domiform.Model.Command.{Event}
use domiform.Adapters.Scheduler
use domiform.Adapters.Scheduler.{SchedulerAdapter, tick, next_wake, due, entry_leb}
use domiform.Adapters.Scheduler.Order.{tick_deterministic, Precedes, due-Precedes}
use domiform.Adapters.Scheduler.Tick.{tick_exact}
use domiform.Adapters.Scheduler.Wake.{next_wake_exact}

abbrev two : SchedulerAdapter
two = record { pending = (bytes "a", 6000) ∷ (bytes "b", 2000) ∷ [] }

abbrev swapped : SchedulerAdapter
swapped = record { pending = (bytes "b", 2000) ∷ (bytes "a", 6000) ∷ [] }

both_fire :
    (tick two 9999).1 ≡ Event.timer_elapsed (bytes "b") ∷ Event.timer_elapsed (bytes "a") ∷ []
unfolding tick due domiform.Base.Sort.sort entry_leb
both_fire = refl

soonest_delay : next_wake two 1500 ≡ some 500
unfolding next_wake Scheduler.soonest
soonest_delay = refl

tick_deterministic_example : (tick two 9999).1 ≡ (tick swapped 9999).1
tick_deterministic_example =
    tick_deterministic two swapped 9999 (Perm.swap (bytes "b", 2000) (bytes "a", 6000) [])

due-Precedes_example : Precedes (2000, bytes "b") (6000, bytes "a")
unfolding due domiform.Base.Sort.sort entry_leb
due-Precedes_example =
    due-Precedes two 9999 0 1 (2000, bytes "b") (6000, bytes "a") (omega arith) refl refl

two-IsMap : IsMap two.pending
unfolding IsMap lookup
two-IsMap = (refl, (refl, tt))

tick_exact_example :
    (In (Event.timer_elapsed (bytes "b")) (tick two 2500).1
      ↔ ((t : Millis) × (lookup (bytes "b") two.pending ≡ some t) × (t ≤ 2500)))
    × ((t : Millis)
        → (lookup (bytes "b") (tick two 2500).0.pending ≡ some t)
          ↔ ((lookup (bytes "b") two.pending ≡ some t) × (2500 < t)))
tick_exact_example = tick_exact two 2500 (bytes "b") two-IsMap

next_wake_exact_example :
    (next_wake two 1500 ≡ none → (later : Millis) → (tick two later).1 ≡ [])
    × ((d : Millis)
        → next_wake two 1500 ≡ some d
        → ((e : Millis) → e < d → (tick two (1500 + e)).1 ≡ []) × ((tick two (1500 + d)).1 ≢ []))
next_wake_exact_example = next_wake_exact two 1500
