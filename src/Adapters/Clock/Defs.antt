-- ===== src/Adapters/Clock/Defs.antt =====
-- The state and operations of src/adapters/clock.rs. An instant is its Unix time in milliseconds.
use Prim.Native.Nat.{compare, Ordering}
use domiform.Base.{
  ℕ, zero, suc, ◌+◌, ◌-◌, ◌%◌, ◌^◌, min, Bool, true, false, ◌&&◌, Option, none, some, List, [], ◌∷◌,
  ◌++◌, map, if◌then◌else◌, leb, ltb, nat_eq, option_beq, Eq,
}
use domiform.Base.Int.{ℤ, pos, negsuc, pos_part, neg_part, ◌+ℤ◌, leb_ℤ, ltb_ℤ}
use domiform.Base.Sort.{sort}
use domiform.Base.Text.{bytes}
use domiform.Model.Capability.{CapabilityState, DeviceId, ScheduleId, Millis}
use domiform.Model.Command.{Command, Event}
use domiform.Adapters.Outcome.{DispatchOutcome, permanent}

-- What the code asks of chrono, chrono-tz, croner and sunrise, in one time zone.
pub record Almanac : Type 1 where
  pub Cron : Type 0
  pub Date : Type 0
  pub Coordinates : Type 0
  pub date_eq : Eq Date
  pub is_representable : ℤ → Bool
  pub minute_of_day : ℤ → ℕ  -- hour() * 60 + minute()
  pub date_naive : ℤ → Date
  pub sunrise : Coordinates → Date → Option ℤ
  pub sunset : Coordinates → Date → Option ℤ
  pub find_next_occurrence : Cron → ℤ → Option ℤ

pub data SunWindow : Type 0 where
  between : (rise set : ℤ) → SunWindow
  fallback : SunWindow

abbrev fallback_sunrise_min : ℕ
fallback_sunrise_min = 360

abbrev fallback_sunset_min : ℕ
fallback_sunset_min = 1080

abbrev minute_ms : ℕ
minute_ms = 60000

-- `rem_euclid(MINUTE_MS)`
unfoldable pub rem_minute : ℤ → ℕ
rem_minute (pos n) = n % minute_ms
rem_minute (negsuc n) = minute_ms - 1 - n % minute_ms

-- The cast of u64 to i64, and the sum of two i64.
abbrev to_i64 : ℕ → ℤ
to_i64 n = if ltb n (2 ^ 63) then pos n else negsuc (2 ^ 64 - 1 - n)

abbrev wrap_i64 : ℤ → ℤ
wrap_i64 (pos n) = to_i64 (n % 2 ^ 64)
wrap_i64 (negsuc n) = to_i64 (2 ^ 64 - 1 - n % 2 ^ 64)

-- How far the first instant lies before the second.
abbrev pub distance : ℤ → ℤ → ℕ
distance t u = (pos_part u + neg_part t) - (pos_part t + neg_part u)

module _ (a : Almanac) where
  pub record ScheduleState : Type 0 where
    pub id : ScheduleId
    pub cron : a.Cron
    pub next_fire : Option ℤ
    pub armed : Bool

  pub record ClockAdapter : Type 0 where
    pub device : DeviceId
    pub boot_epoch_ms : ℤ
    pub coord : Option a.Coordinates
    pub last_emit_min : Option ℕ
    pub schedules : List ScheduleState
    pub sun_cache : Option (a.Date × SunWindow)

  -- `coord` is what `Coordinates::new` makes of the latitude and the longitude.
  abbrev pub new : DeviceId → ℤ → Option a.Coordinates → ClockAdapter
  new device boot_epoch_ms coord = record {
    device = device;
    boot_epoch_ms = boot_epoch_ms;
    coord = coord;
    last_emit_min = none;
    schedules = [];
    sun_cache = none;
  }

  unfoldable pub with_schedules : ClockAdapter → List (ScheduleId × a.Cron) → ClockAdapter
  with_schedules c schedules = record c {
    schedules =
        map
          (λ (s : ScheduleId × a.Cron). record {
            id = s.0;
            cron = s.1;
            next_fire = none;
            armed = false;
          })
          schedules;
  }

  unfoldable pub wall_ms : ClockAdapter → Millis → ℤ
  wall_ms c now = wrap_i64 (c.boot_epoch_ms +ℤ to_i64 now)

  abbrev window : Option ℤ → Option ℤ → SunWindow
  window (some rise) (some set) = between rise set
  window _ _ = fallback

  unfoldable pub compute_window : ClockAdapter → a.Date → SunWindow
  compute_window c date = elim c.coord [
    | none ↦ fallback
    | some coord ↦ window (a.sunrise coord date) (a.sunset coord date)
  ]

  -- The window in the cache, if it is for the date.
  abbrev cached : Option (a.Date × SunWindow) → a.Date → Option SunWindow
  cached none date = none
  cached (some (day, w)) date = if a.date_eq.beq day date then some w else none

  abbrev in_window : SunWindow → ℤ → Bool
  in_window (between rise set) wall = leb_ℤ rise wall && ltb_ℤ wall set
  in_window fallback wall =
      leb fallback_sunrise_min (a.minute_of_day wall)
      && ltb (a.minute_of_day wall) fallback_sunset_min

  unfoldable pub sun_up : ClockAdapter → ℤ → ClockAdapter × Bool
  unfolding compute_window
  sun_up c wall =
      let date = a.date_naive wall in
      elim (cached c.sun_cache date) [
        | some w ↦ (c, in_window w wall)
        | none ↦
            let w = compute_window c date in
            (record c { sun_cache = some (date, w) }, in_window w wall)
      ]

  -- The loop over the occurrences up to `local`, within `fuel` rounds: those fired, and the next.
  unfoldable pub fire_loop : ℕ → a.Cron → ℤ → Option ℤ → List ℤ × Option ℤ
  fire_loop zero cron local next = ([], next)
  fire_loop (suc fuel) cron local none = ([], none)
  fire_loop (suc fuel) cron local (some t) =
      let (ts, later) = fire_loop fuel cron local (a.find_next_occurrence cron t) in
      if ltb_ℤ local t then ([], some t) else (t ∷ ts, later)

  -- A millisecond at least lies between two occurrences.
  abbrev pub fuel_of : ℤ → Option ℤ → ℕ
  fuel_of local none = 0
  fuel_of local (some t) = suc (distance t local)

  -- The occurrence that is waited for: the first after `local` where none is yet.
  abbrev pub cron_next : ScheduleState → ℤ → Option ℤ
  cron_next s local = if s.armed then s.next_fire else a.find_next_occurrence s.cron local

  unfoldable pub fire_schedule : ScheduleState → ℤ → ScheduleState × List (ℤ × ScheduleId)
  unfolding fire_loop
  fire_schedule s local =
      let next = cron_next s local in
      let (ts, later) = fire_loop (fuel_of local next) s.cron local next in
      (record s { next_fire = later; armed = true }, map (λ (t : ℤ). (t, s.id)) ts)

  unfoldable pub fire_each : List ScheduleState → ℤ → List ScheduleState × List (ℤ × ScheduleId)
  fire_each [] local = ([], [])
  fire_each (s ∷ ss) local =
      let (s', fired) = fire_schedule s local in
      let (ss', more) = fire_each ss local in (s' ∷ ss', fired ++ more)

  -- By fire time, then by schedule.
  unfoldable pub fired_leb : ℤ × ScheduleId → ℤ × ScheduleId → Bool
  fired_leb (t, i) (u, j) = elim (compare (pos_part t + neg_part u) (pos_part u + neg_part t)) [
    | Ordering.lt ↦ true
    | Ordering.eq ↦ leb i j
    | Ordering.gt ↦ false
  ]

  abbrev pub time_reached : ℤ × ScheduleId → Event
  time_reached (t, schedule) = Event.time_reached schedule

  unfoldable pub fire_due_schedules : ClockAdapter → ℤ → ClockAdapter × List Event
  fire_due_schedules c local =
      let (schedules, fired) = fire_each c.schedules local in
      (record c { schedules = schedules }, map time_reached (sort fired_leb fired))

  unfoldable pub dispatch : ClockAdapter → Command → Millis → ClockAdapter × DispatchOutcome
  dispatch c cmd now = (c, permanent (bytes "clock device accepts no commands"))

  -- The reports of a minute that is new.
  unfoldable pub report_minute : ClockAdapter → ℤ → ClockAdapter × List Event
  report_minute c wall =
      let minute = a.minute_of_day wall % 2 ^ 16 in
      let (c', up) = sun_up (record c { last_emit_min = some minute }) wall in
      if option_beq c.last_emit_min (some minute) then (c, []) else (
        c',
        Event.state_reported c.device (CapabilityState.time_of_day minute)
            ∷ Event.state_reported c.device (CapabilityState.sun_up up)
            ∷ [],
      )

  -- `none` where the instant is out of the range of the library.
  unfoldable pub tick : ClockAdapter → Millis → Option (ClockAdapter × List Event)
  tick c now =
      let wall = wall_ms c now in
      let (c1, reports) = report_minute c wall in
      let (c2, reached) = fire_due_schedules c1 wall in
      if a.is_representable wall then some (c2, reports ++ reached) else none

  -- The fold over the schedules that wait for an occurrence.
  unfoldable pub least_delay : List ScheduleState → ℤ → Millis → Millis
  least_delay [] wall best = best
  least_delay (s ∷ ss) wall best = elim s.next_fire [
    | none ↦ least_delay ss wall best
    | some t ↦ least_delay ss wall (min best (distance wall t))
  ]

  unfoldable pub next_wake : ClockAdapter → Millis → Option Millis
  next_wake c now =
      let wall = wall_ms c now in some (least_delay c.schedules wall (minute_ms - rem_minute wall))
