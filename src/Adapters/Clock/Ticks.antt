-- ===== src/Adapters/Clock/Ticks.antt =====
-- The schedules of src/adapters/clock.rs over its ticks, and how long the clock lets its host sleep.
use domiform.Base.{
  ℕ, ◌+◌, ◌-◌, ◌<◌, ◌≤◌, ◌≡◌, ◌↔◌, ◌⊎◌, refl, ap, ap₂, subst, true, false, Option, none, some, List,
  [], ◌∷◌, ◌++◌, inl, inr, Option-cases, In, All, arith, map, min,
}
use domiform.Base.Int.{ℤ, pos, negsuc, ◌≤ℤ◌}
use domiform.Base.Sort.{sort, TotalOrder, IsSorted, sort-IsSorted, In-sort}
use domiform.Model.Capability.{ScheduleId, Millis}
use domiform.Adapters.Clock.Defs.{
  Almanac, ScheduleState, ClockAdapter, fire_loop, fire_schedule, fire_each, fire_due_schedules,
  fired_leb, time_reached, least_delay, next_wake, wall_ms, rem_minute, distance, fuel_of,
  cron_next, with_schedules,
}
use domiform.Adapters.Clock.Fire.{
  IsAlmanac, IsNext, InSpan, found-IsNext, fire_loop-IsFired, ℤ-trichotomy,
}

fired_total :
    (a : Almanac) (p q : ℤ × ScheduleId) → (fired_leb a p q ≡ true) ⊎ (fired_leb a q p ≡ true)
unfolding fired_leb
fired_total a (t, i) (u, j) = ground arith

fired_antisym :
    (a : Almanac) (p q : ℤ × ScheduleId) → fired_leb a p q ≡ true → fired_leb a q p ≡ true → p ≡ q
unfolding fired_leb
fired_antisym a (t, i) (u, j) h k =
    let ids : i ≡ j = ground (arith, h, k) in
    elim (ℤ-trichotomy t u) [
      | inl e ↦ ap₂ (λ (v : ℤ) (l : ℕ). (v, l)) e ids
      | inr (inl l) ↦ absurd (ground (arith, l, k))
      | inr (inr g) ↦ absurd (ground (arith, g, h))
    ]

fired_trans :
    (a : Almanac) (p q r : ℤ × ScheduleId)
    → fired_leb a p q ≡ true
    → fired_leb a q r ≡ true
    → fired_leb a p r ≡ true
unfolding fired_leb
fired_trans a (t, i) (u, j) (v, k) g h = ground (arith, g, h)

clock_order : (a : Almanac) → TotalOrder (fired_leb a)
clock_order a = record { total = fired_total a; antisym = fired_antisym a; trans = fired_trans a }

-- The members of a list under one label.
In-labelled :
    (id : ScheduleId) (ts : List ℤ) (t : ℤ) (i : ScheduleId)
    → In {A = ℤ × ScheduleId} (t, i) (map (λ (u : ℤ). (u, id)) ts) ↔ ((id ≡ i) × In t ts)
In-labelled id [] t i = (λ m. absurd m, λ (e, m). absurd m)
In-labelled id (u ∷ ts) t i = (
  λ m. elim m [
    | inl e ↦ (ap (λ (p : ℤ × ScheduleId). p.1) e, inl (ap (λ (p : ℤ × ScheduleId). p.0) e))
    | inr there ↦ let (e, found) = (In-labelled id ts t i).0 there in (e, inr found)
  ],
  λ (e, m). elim m [
    | inl same ↦ inl (ap₂ (λ (v : ℤ) (l : ScheduleId). (v, l)) same e)
    | inr there ↦ inr ((In-labelled id ts t i).1 (e, there))
  ],
)

In-append : {A : Type 0} (a : A) (xs ys : List A) → In a (xs ++ ys) ↔ (In a xs ⊎ In a ys)
In-append a [] ys = (λ m. inr m, λ m. elim m [ inl n ↦ absurd n | inr n ↦ n ])
In-append a (x ∷ xs) ys = ground (arith, In-append a xs ys)

no_members : {A : Type 0} (xs : List A) → ((x : A) → In x xs → ⊥) → xs ≡ []
no_members [] h = refl
no_members (x ∷ xs) h = absurd (h x (inl refl))

module _ (a : Almanac) (Occurs : a.Cron → ℤ → Type 0) (laws : IsAlmanac a Occurs) where
  -- A schedule that waits for its first occurrence after an instant.
  abbrev pub IsWaiting : ℤ → ScheduleState a → Type 0
  IsWaiting last s = (s.armed ≡ true) × IsNext a Occurs laws s.cron last s.next_fire

  -- The occurrences of one of the schedules in a span.
  abbrev pub Due : List (ScheduleState a) → ℤ → ℤ → ℤ × ScheduleId → Type 0
  Due [] last local e = ⊥
  Due (s ∷ ss) last local (t, id) =
      ((s.id ≡ id) × InSpan a Occurs laws s.cron last local t) ⊎ Due ss last local (t, id)

  fire_schedule-Due :
      (s : ScheduleState a) (last local : ℤ)
      → IsWaiting last s
      → last ≤ℤ local
      → IsWaiting local (fire_schedule a s local).0
        × ((t : ℤ) (id : ScheduleId)
            → In (t, id) (fire_schedule a s local).1
              ↔ ((s.id ≡ id) × InSpan a Occurs laws s.cron last local t))
  unfolding fire_schedule
  fire_schedule-Due s last local (armed, next) le =
      let waiting : IsNext a Occurs laws s.cron last (cron_next a s local) = rw armed next in
      let done =
        fire_loop-IsFired a Occurs laws s.cron (fuel_of a local (cron_next a s local)) last local
          (cron_next a s local) waiting le λ u eq early. rw eq (omega arith) in
      (
        (refl, done.next),
        λ t id. (
          λ m. let (e, there) = (In-labelled s.id _ t id).0 m in (e, (done.exactly t).0 there),
          λ (e, span). (In-labelled s.id _ t id).1 (e, (done.exactly t).1 span),
        ),
      )

  -- A schedule that is not armed fires nothing.
  fire_schedule-arms :
      (s : ScheduleState a) (local : ℤ)
      → s.armed ≡ false
      → ((fire_schedule a s local).1 ≡ []) × IsWaiting local (fire_schedule a s local).0
  unfolding fire_schedule
  fire_schedule-arms s local unarmed =
      let waiting : IsNext a Occurs laws s.cron local (cron_next a s local) =
        rw unarmed (found-IsNext a Occurs laws s.cron local) in
      let done =
        fire_loop-IsFired a Occurs laws s.cron (fuel_of a local (cron_next a s local)) local local
          (cron_next a s local) waiting (omega arith) λ u eq early. rw eq (omega arith) in
      let empty =
        no_members
          (fire_loop a (fuel_of a local (cron_next a s local)) s.cron local (cron_next a s local)).0
          λ t m. let (occurs, later, early) = (done.exactly t).0 m in omega (arith, later, early) in
      (ap (map λ (t : ℤ). (t, s.id)) empty, (refl, done.next))

  abbrev pub IsUnarmed : ScheduleState a → Type 0
  IsUnarmed s = s.armed ≡ false

  fire_each-arms :
      (ss : List (ScheduleState a)) (local : ℤ)
      → All IsUnarmed ss
      → ((fire_each a ss local).1 ≡ []) × All (IsWaiting local) (fire_each a ss local).0
  unfolding fire_each
  fire_each-arms [] local h = (refl, tt)
  fire_each-arms (s ∷ ss) local h =
      let one = fire_schedule-arms s local h.0 in
      let more = fire_each-arms ss local h.1 in (ap₂ (λ m n. m ++ n) one.0 more.0, (one.1, more.1))

  with_schedules-IsUnarmed :
      (c : ClockAdapter a) (schedules : List (ScheduleId × a.Cron))
      → All IsUnarmed (with_schedules a c schedules).schedules
  unfolding with_schedules
  with_schedules-IsUnarmed c [] = tt
  with_schedules-IsUnarmed c (s ∷ ss) = (refl, with_schedules-IsUnarmed c ss)

  -- The first tick of a clock that was given its schedules reports no schedule, not even one that occurs at
  -- that instant, and leaves each schedule waiting for its first occurrence after it.
  pub fire_due_schedules-first :
      (c : ClockAdapter a) (schedules : List (ScheduleId × a.Cron)) (local : ℤ)
      → ((fire_due_schedules a (with_schedules a c schedules) local).1 ≡ [])
        × All
            (IsWaiting local)
            (fire_due_schedules a (with_schedules a c schedules) local).0.schedules
  unfolding fire_due_schedules sort
  fire_due_schedules-first c schedules local =
      let each =
        fire_each-arms (with_schedules a c schedules).schedules local
          (with_schedules-IsUnarmed c schedules) in
      (ap (λ fired. map (time_reached a) (sort (fired_leb a) fired)) each.0, each.1)

  fire_each-Due :
      (ss : List (ScheduleState a)) (last local : ℤ)
      → All (IsWaiting last) ss
      → last ≤ℤ local
      → All (IsWaiting local) (fire_each a ss local).0
        × ((t : ℤ) (id : ScheduleId)
            → In (t, id) (fire_each a ss local).1 ↔ Due ss last local (t, id))
  unfolding fire_each
  fire_each-Due [] last local h le = (tt, λ t id. (λ m. m, λ m. m))
  fire_each-Due (s ∷ ss) last local h le =
      let one = fire_schedule-Due s last local h.0 le in
      let more = fire_each-Due ss last local h.1 le in
      (
        (one.0, more.0),
        λ t id. (
          λ m. elim ((In-append (t, id) (fire_schedule a s local).1 (fire_each a ss local).1).0 m) [
            | inl n ↦ inl ((one.1 t id).0 n)
            | inr n ↦ inr ((more.1 t id).0 n)
          ],
          λ d.
              (In-append (t, id) (fire_schedule a s local).1 (fire_each a ss local).1).1
                (elim d [ inl n ↦ inl ((one.1 t id).1 n) | inr n ↦ inr ((more.1 t id).1 n) ]),
        ),
      )

  -- After a tick at one instant, a tick at a later one reports the occurrences of the schedules that lie
  -- after the first instant and not after the second, those and no others, by time and then by schedule,
  -- and leaves each schedule waiting for its first occurrence after the second instant. The loop over
  -- occurrences ends, since each occurrence comes after the one before it. The library finds the first
  -- occurrence after an instant.
  pub fire_due_schedules-Due :
      (c : ClockAdapter a) (last local : ℤ)
      → All (IsWaiting last) c.schedules
      → last ≤ℤ local
      → (due : List (ℤ × ScheduleId)) × ((fire_due_schedules a c local).1
          ≡ map (time_reached a) due)
        × IsSorted (fired_leb a) due
        × ((t : ℤ) (id : ScheduleId) → In (t, id) due ↔ Due c.schedules last local (t, id))
        × All (IsWaiting local) (fire_due_schedules a c local).0.schedules
  unfolding fire_due_schedules
  fire_due_schedules-Due c last local h le =
      let each = fire_each-Due c.schedules last local h le in
      let fired = (fire_each a c.schedules local).1 in
      (
        sort (fired_leb a) fired,
        refl,
        sort-IsSorted (clock_order a) fired,
        λ t id. (
          λ m. (each.1 t id).0 ((In-sort (fired_leb a) (t, id) fired).0 m),
          λ d. (In-sort (fired_leb a) (t, id) fired).1 ((each.1 t id).1 d),
        ),
        each.0,
      )

rem_minute-lt : (z : ℤ) → rem_minute z < 60000
unfolding rem_minute
rem_minute-lt (pos n) = omega arith
rem_minute-lt (negsuc n) = omega arith

-- A delay is a bound for every schedule that waits.
module _ (a : Almanac) where
  abbrev pub NotPast : ℤ → Millis → ScheduleState a → Type 0
  NotPast wall d s = (t : ℤ) → s.next_fire ≡ some t → d ≤ distance wall t

  abbrev bounded : ScheduleState a → ℤ → Millis → Millis
  bounded s wall best = elim s.next_fire [ none ↦ best | some t ↦ min best (distance wall t) ]

  least_delay-bounded :
      (s : ScheduleState a) (ss : List (ScheduleState a)) (wall : ℤ) (best : Millis)
      → least_delay a ss wall (bounded s wall best) ≡ least_delay a (s ∷ ss) wall best
  unfolding least_delay
  least_delay-bounded s ss wall best = elim (Option-cases s.next_fire) [
    | inl p ↦ rw (least_delay, p) refl
    | inr (u, p) ↦ rw (least_delay, p) refl
  ]

  bounded-NotPast :
      (s : ScheduleState a) (wall : ℤ) (best d : Millis)
      → d ≤ bounded s wall best
      → (d ≤ best) × NotPast wall d s
  bounded-NotPast s wall best d h = elim (Option-cases s.next_fire) [
    | inl p ↦
        let plain : d ≤ best = rw p at h in
        (plain, λ t eq. let impossible : ◌≡◌ {A = Option ℤ} none (some t) = rw p at eq in cc)
    | inr (u, p) ↦
        let least : d ≤ min best (distance wall u) = rw p at h in
        (
          omega (arith, least),
          λ t eq.
              let found : ◌≡◌ {A = Option ℤ} (some u) (some t) = rw p at eq in
              let same : u ≡ t = cc found in
              subst (λ v. d ≤ distance wall v) same (omega (arith, least)),
        )
  ]

  least_delay-NotPast :
      (ss : List (ScheduleState a)) (wall : ℤ) (best : Millis)
      → (least_delay a ss wall best ≤ best) × All (NotPast wall (least_delay a ss wall best)) ss
  unfolding least_delay
  least_delay-NotPast [] wall best = (omega arith, tt)
  least_delay-NotPast (s ∷ ss) wall best =
      let (below, rest) = least_delay-NotPast ss wall (bounded s wall best) in
      let (plain, own) =
        bounded-NotPast s wall best (least_delay a ss wall (bounded s wall best)) below in
      subst (λ d. (d ≤ best) × (NotPast wall d s × All (NotPast wall d) ss))
        (least_delay-bounded s ss wall best) (plain, (own, rest))

  -- The clock lets its host sleep no longer than to the next minute of the wall clock, and past no
  -- schedule's next occurrence.
  pub next_wake-NotPast :
      (c : ClockAdapter a) (now : Millis)
      → (d : Millis) × (next_wake a c now ≡ some d)
        × (d + rem_minute (wall_ms a c now) ≤ 60000)
        × All (NotPast (wall_ms a c now) d) c.schedules
  unfolding next_wake
  next_wake-NotPast c now =
      let wall = wall_ms a c now in
      let (below, all) = least_delay-NotPast c.schedules wall (60000 - rem_minute wall) in
      (_, refl, omega (arith, below, rem_minute-lt wall), all)
