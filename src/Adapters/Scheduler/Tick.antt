-- ===== src/Adapters/Scheduler/Tick.antt =====
-- Which timers a tick of src/adapters/scheduler.rs fires, and which it keeps.
use domiform.Base.{
  ◌≤◌, ◌<◌, ◌≡◌, ◌↔◌, refl, none, some, List, [], ◌∷◌, map, filter, arith, Bool, In, true, false,
  if◌then◌else◌, inl, inr, ap, Bool-cases,
}
use domiform.Base.Assoc.{Assoc, lookup, remove, lookup-remove, IsMap, In-iff_lookup}
use domiform.Base.Sort.{In-sort}
use domiform.Base.Text.{text_eq, text_beq, text_beq_iff}
use domiform.Model.Capability.{Millis}
use domiform.Model.Command.{TimerKey, Event}
use domiform.Adapters.Scheduler.Defs.{
  SchedulerAdapter, entry_leb, is_due, swap, due, tick, elapsed, remove_all,
}

In-swap-filter :
    (now t : Millis) (k : TimerKey) (m : Assoc TimerKey Millis)
    → In (t, k) (map swap (filter (is_due now) m)) ↔ (In (k, t) m × (t ≤ now))
In-swap-filter now t k [] = ground arith
In-swap-filter now t k ((j, u) ∷ m) = ground (arith, In-swap-filter now t k m)

due_iff :
    (s : SchedulerAdapter) (now t : Millis) (k : TimerKey)
    → IsMap s.pending
    → In (t, k) (due s now) ↔ ((lookup k s.pending ≡ some t) × (t ≤ now))
unfolding due
due_iff s now t k h = ground (
  arith,
  In-sort entry_leb (t, k) (map swap (filter (is_due now) s.pending)),
  In-swap-filter now t k s.pending,
  In-iff_lookup k t s.pending h,
)

abbrev has_key : TimerKey → List (Millis × TimerKey) → Bool
has_key k [] = false
has_key k ((t, j) ∷ es) = let rest = has_key k es in if text_beq j k then true else rest

-- Some entry has the key.
abbrev Has : TimerKey → List (Millis × TimerKey) → Type 0
Has k es = (t : Millis) × In (t, k) es

Has-cons :
    (k : TimerKey) (e : Millis × TimerKey) (es : List (Millis × TimerKey))
    → Has k es
    → Has k (e ∷ es)
Has-cons k e es (t, m) = (t, inr m)

Has-key→Has : (k : TimerKey) (es : List (Millis × TimerKey)) → has_key k es ≡ true → Has k es
Has-key→Has k [] h = cc
Has-key→Has k ((t, j) ∷ es) h = elim (Bool-cases (text_beq j k)) [
  | inl p ↦ (t, inl (ap (λ (i : TimerKey). (t, i)) ((text_beq_iff j k).0 p)))
  | inr p ↦ Has-cons k (t, j) es (Has-key→Has k es (rw p at h))
]

In→has_key :
    (k : TimerKey) (t : Millis) (es : List (Millis × TimerKey)) → In (t, k) es → has_key k es ≡ true
In→has_key k t [] m = absurd m
In→has_key k t ((u, j) ∷ es) m = ground (arith, In→has_key k t es, text_beq_iff j k)

In-elapsed :
    (k : TimerKey) (es : List (Millis × TimerKey))
    → In (Event.timer_elapsed k) (map elapsed es) ↔ (has_key k es ≡ true)
In-elapsed k [] = ground arith
In-elapsed k ((u, j) ∷ es) = ground (arith, In-elapsed k es, text_beq_iff j k)

lookup-remove_all :
    (k : TimerKey) (es : List (Millis × TimerKey)) (m : Assoc TimerKey Millis)
    → lookup k (remove_all es m) ≡ (if has_key k es then none else lookup k m)
unfolding remove_all
lookup-remove_all k [] m = refl
lookup-remove_all k ((u, j) ∷ es) m =
    ground (arith, lookup-remove_all k es (remove j m), lookup-remove j k m)

has_key-due :
    (s : SchedulerAdapter) (now : Millis) (k : TimerKey)
    → IsMap s.pending
    → (has_key k (due s now) ≡ true) ↔ ((t : Millis) × (lookup k s.pending ≡ some t) × (t ≤ now))
has_key-due s now k h = (
  λ p.
      let (t, m) = Has-key→Has k (due s now) p in
      let (found, late) = (due_iff s now t k h).0 m in (t, found, late),
  λ (t, found, late). In→has_key k t (due s now) ((due_iff s now t k h).1 (found, late)),
)

kept_iff :
    (s : SchedulerAdapter) (now t : Millis) (k : TimerKey)
    → IsMap s.pending
    → (lookup k (remove_all (due s now) s.pending) ≡ some t)
      ↔ ((lookup k s.pending ≡ some t) × (now < t))
kept_iff s now t k h = elim (Bool-cases (has_key k (due s now))) [
  | inl p ↦
      let (u, found, late) = (has_key-due s now k h).0 p in
      ground (arith, lookup-remove_all k (due s now) s.pending, found, late)
  | inr p ↦
      let reported : lookup k s.pending ≡ some t → t ≤ now → has_key k (due s now) ≡ true =
        λ found late. (has_key-due s now k h).1 (t, found, late) in
      ground (arith, lookup-remove_all k (due s now) s.pending, reported)
]

-- Where each key is pending at most once, a tick reports a timer exactly if it is pending and its fire
-- time has come, and what stays pending is exactly the timers whose fire time is still ahead, unchanged.
pub tick_exact :
    (s : SchedulerAdapter) (now : Millis) (k : TimerKey)
    → IsMap s.pending
    → (In (Event.timer_elapsed k) (tick s now).1
        ↔ ((t : Millis) × (lookup k s.pending ≡ some t) × (t ≤ now)))
      × ((t : Millis)
          → (lookup k (tick s now).0.pending ≡ some t)
            ↔ ((lookup k s.pending ≡ some t) × (now < t)))
unfolding tick
tick_exact s now k h = (
  (
    λ m. (has_key-due s now k h).0 ((In-elapsed k (due s now)).0 m),
    λ f. (In-elapsed k (due s now)).1 ((has_key-due s now k h).1 f),
  ),
  λ t. kept_iff s now t k h,
)
