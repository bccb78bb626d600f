-- ===== src/Adapters/Scheduler/Wake.antt =====
-- `next_wake` of src/adapters/scheduler.rs against `tick`.
use domiform.Base.{
  ◌+◌, ◌<◌, ◌≡◌, ◌≢◌, ◌↔◌, Option, none, some, List, [], ◌∷◌, map, filter, arith, Bool,
}
use domiform.Base.Assoc.{Assoc}
use domiform.Base.Sort.{sort, place}
use domiform.Model.Capability.{Millis}
use domiform.Model.Command.{TimerKey}
use domiform.Adapters.Scheduler.Defs.{
  SchedulerAdapter, entry_leb, is_due, swap, due, tick, elapsed, soonest, next_wake,
}

-- No timer is due at `now`.
abbrev Quiet : Option Millis → Millis → Type 0
Quiet none now = Unit
Quiet (some t) now = now < t

module _ {A : Type 0} (leb : A → A → Bool) where
  place-ne-nil : (a : A) (xs : List A) → place leb a xs ≢ []
  unfolding place
  place-ne-nil a [] = ground arith
  place-ne-nil a (b ∷ xs) = ground arith

  sort-eq-nil : (xs : List A) → (sort leb xs ≡ []) ↔ (xs ≡ [])
  unfolding sort
  sort-eq-nil [] = ground arith
  sort-eq-nil (a ∷ xs) = ground (arith, place-ne-nil a (sort leb xs))

filter-eq-nil :
    (now : Millis) (m : Assoc TimerKey Millis)
    → (map swap (filter (is_due now) m) ≡ []) ↔ Quiet (soonest m) now
unfolding soonest
filter-eq-nil now [] = ground arith
filter-eq-nil now ((k, t) ∷ m) = ground (arith, filter-eq-nil now m)

map-eq-nil : (es : List (Millis × TimerKey)) → (map elapsed es ≡ []) ↔ (es ≡ [])
map-eq-nil [] = ground arith
map-eq-nil ((t, k) ∷ es) = ground arith

tick-eq-nil :
    (s : SchedulerAdapter) (now : Millis) → ((tick s now).1 ≡ []) ↔ Quiet (soonest s.pending) now
unfolding tick due
tick-eq-nil s now = ground (
  arith,
  sort-eq-nil entry_leb (map swap (filter (is_due now) s.pending)),
  filter-eq-nil now s.pending,
  map-eq-nil (sort entry_leb (map swap (filter (is_due now) s.pending))),
)

-- The host sleeps exactly until the next due timer: before the delay that `next_wake` gives, a tick
-- reports nothing, and at that delay it reports something. Where it gives none, no tick ever does.
pub next_wake_exact :
    (s : SchedulerAdapter) (now : Millis)
    → (next_wake s now ≡ none → (later : Millis) → (tick s later).1 ≡ [])
      × ((d : Millis)
          → next_wake s now ≡ some d
          → ((e : Millis) → e < d → (tick s (now + e)).1 ≡ []) × ((tick s (now + d)).1 ≢ []))
unfolding next_wake
next_wake_exact s now = (
  λ h later. ground (arith, tick-eq-nil s later),
  λ d h. (λ e lt. ground (arith, tick-eq-nil s (now + e)), ground (arith, tick-eq-nil s (now + d))),
)
