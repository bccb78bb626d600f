-- ===== src/Tests/Clock.antt =====
-- Tests of the model of src/adapters/clock.rs: expressions with one occurrence each.
use domiform.Base.{
  ℕ, ◌+◌, ◌≤◌, ◌≡◌, ◌↔◌, ◌⊎◌, refl, sym, ◌∙◌, subst, true, false, Bool, Option, none, some, List,
  [], ◌∷◌, inl, inr, In, All, arith, if◌then◌else◌, Bool-cases, bool_eq, map, min,
}
use domiform.Base.Int.{ℤ, pos, ltb_ℤ, ◌≤ℤ◌}
use domiform.Base.Sort.{sort, IsSorted}
use domiform.Model.Capability.{ScheduleId, Millis}
use domiform.Model.Command.{Event}
use domiform.Adapters.Clock.{
  Almanac, ScheduleState, ClockAdapter, fire_due_schedules, fired_leb, time_reached, next_wake,
  wall_ms, rem_minute, new, with_schedules, fire_loop, fire_schedule, fire_each, least_delay,
}
use domiform.Adapters.Clock.Fire.{IsAlmanac, ◌<ℤ◌, found-IsNext}
use domiform.Adapters.Clock.Ticks.{
  IsWaiting, Due, fire_due_schedules-Due, fire_due_schedules-first, NotPast, next_wake-NotPast,
}

abbrev next_once : ℤ → ℤ → Option ℤ
next_once c t = if ltb_ℤ t c then some c else none

-- An expression is the instant at which it occurs, and the sun is up all the time.
abbrev once : Almanac
once = record {
  Cron = ℤ;
  Date = Bool;
  Coordinates = ℕ;
  date_eq = bool_eq;
  is_representable = λ t. true;
  minute_of_day = λ t. 700;
  date_naive = λ t. true;
  sunrise = λ c d. none;
  sunset = λ c d. none;
  find_next_occurrence = next_once;
}

abbrev OccursOnce : ℤ → ℤ → Type 0
OccursOnce c u = c ≡ u

next_once-some : (c t u : ℤ) → next_once c t ≡ some u → (c ≡ u) × (t <ℤ u)
next_once-some c t u h = elim (Bool-cases (ltb_ℤ t c)) [
  | inl p ↦
      let found : ◌≡◌ {A = Option ℤ} (some c) (some u) = rw p at h in
      let same : c ≡ u = cc found in
      let later : t <ℤ c = ground (arith, p) in (same, subst (λ v. t <ℤ v) same later)
  | inr p ↦ let impossible : ◌≡◌ {A = Option ℤ} none (some u) = rw p at h in cc
]

next_once-none : (c t v : ℤ) → next_once c t ≡ none → c ≡ v → t <ℤ v → ⊥
next_once-none c t v h same later = elim (Bool-cases (ltb_ℤ t c)) [
  | inl p ↦ let impossible : ◌≡◌ {A = Option ℤ} (some c) none = rw p at h in cc
  | inr p ↦ let later' : t <ℤ c = subst (λ w. t <ℤ w) (sym same) later in ground (arith, p, later')
]

once-IsAlmanac : IsAlmanac once OccursOnce
once-IsAlmanac = record {
  found_occurs = λ c t u h. (next_once-some c t u h).0;
  found_after = λ c t u h. (next_once-some c t u h).1;
  found_first = λ c t u v h same later.
      let sum : u ≡ v = sym (next_once-some c t u h).0 ∙ same in
      subst (λ w. u ≤ℤ w) sum (omega arith);
  none_after = next_once-none;
}

abbrev waiting : ScheduleId → ℕ → ScheduleState once
waiting id n = record { id = id; cron = pos n; next_fire = some (pos n); armed = true }

abbrev clock : ClockAdapter once
clock = record (new once 0 (pos 0) none) {
  schedules = waiting 0 5000 ∷ waiting 1 3000 ∷ waiting 2 9000 ∷ [];
}

in_order :
    (fire_due_schedules once clock (pos 6000)).1 ≡ Event.time_reached 1 ∷ Event.time_reached 0 ∷ []
unfolding fire_due_schedules fire_each fire_schedule fire_loop domiform.Base.Sort.sort
    domiform.Base.Sort.place fired_leb
in_order = refl

asleep : next_wake once clock 1000 ≡ some 2000
unfolding next_wake wall_ms least_delay rem_minute
asleep = refl

clock-IsWaiting : All (IsWaiting once OccursOnce once-IsAlmanac (pos 1000)) clock.schedules
clock-IsWaiting =
    let at = found-IsNext once OccursOnce once-IsAlmanac in
    (
      (refl, at (pos 5000) (pos 1000)),
      ((refl, at (pos 3000) (pos 1000)), ((refl, at (pos 9000) (pos 1000)), tt)),
    )

fire_due_schedules-Due_example :
    (due : List (ℤ × ScheduleId)) × ((fire_due_schedules once clock (pos 6000)).1
      ≡ map (time_reached once) due)
    × IsSorted (fired_leb once) due
    × ((t : ℤ) (id : ScheduleId)
        → In (t, id) due
          ↔ Due once OccursOnce once-IsAlmanac clock.schedules (pos 1000) (pos 6000) (t, id))
    × All
        (IsWaiting once OccursOnce once-IsAlmanac (pos 6000))
        (fire_due_schedules once clock (pos 6000)).0.schedules
fire_due_schedules-Due_example =
    fire_due_schedules-Due once OccursOnce once-IsAlmanac clock (pos 1000) (pos 6000)
      clock-IsWaiting (omega arith)

next_wake-NotPast_example :
    (d : Millis) × (next_wake once clock 1000 ≡ some d)
    × (d + rem_minute (wall_ms once clock 1000) ≤ 60000)
    × All (NotPast once (wall_ms once clock 1000) d) clock.schedules
next_wake-NotPast_example = next_wake-NotPast once clock 1000

fire_due_schedules-first_example :
    ((fire_due_schedules once (with_schedules once clock ((4, pos 7000) ∷ [])) (pos 7000)).1 ≡ [])
    × All
        (IsWaiting once OccursOnce once-IsAlmanac (pos 7000))
        (fire_due_schedules once
          (with_schedules once clock ((4, pos 7000) ∷ []))
          (pos 7000)).0.schedules
fire_due_schedules-first_example =
    fire_due_schedules-first once OccursOnce once-IsAlmanac clock ((4, pos 7000) ∷ []) (pos 7000)
