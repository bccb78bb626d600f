-- ===== src/Engine/Drive.antt =====
-- How a host drives the loop of src/engine.rs: boot, injected events, the passage of time and wakes.
use domiform.Base.{ℕ, ◌+◌, min, Option, none, some, List, [], ◌∷◌, ◌++◌, map, ◌>>=◌}
use domiform.State
use domiform.Model.Capability.{CapabilityState, DeviceId, Millis}
use domiform.Model.Command.{Event}
use domiform.Engine.Parts.{Engine, Ports, enqueue_all, adapter_tick, adapter_next_wake}
use domiform.Engine.Dispatch.{u64}
use domiform.Engine.Loop.{drain}

-- Tick each of a list in turn, collecting what they produce.
unfoldable pub tick_each : {A : Type 0} → (A → A × List Event) → List A → List A × List Event
tick_each tick [] = ([], [])
tick_each tick (a ∷ as') =
    let (a', evs) = tick a in let (rest, more) = tick_each tick as' in (a' ∷ rest, evs ++ more)

-- `filter_map(next_wake)`, then the least.
unfoldable pub least_wake : {A : Type 0} → (A → Option Millis) → List A → Option Millis
least_wake wake [] = none
least_wake wake (a ∷ as') = elim (wake a) [
  | none ↦ least_wake wake as'
  | some d ↦ elim (least_wake wake as') [ none ↦ some d | some d' ↦ some (min d d') ]
]

-- `chain(..).min()` of the two minima.
abbrev pub lesser : Option Millis → Option Millis → Option Millis
lesser none o = o
lesser (some d) none = some d
lesser (some d) (some d') = some (min d d')

module _ {S N : Type 0} (p : Ports S N) where
  unfoldable pub tick_adapters : Engine S N → Engine S N
  tick_adapters e =
      let (adapters, produced) = tick_each (λ a. adapter_tick p a e.now) e.adapters in
      let (northbound, inbound) = tick_each (λ n. p.nb_tick n e.now) e.northbound in
      enqueue_all (record e { adapters = adapters; northbound = northbound }) (produced ++ inbound)
        0

  -- `Engine::inject`
  unfoldable pub inject : ℕ → ℕ → Engine S N → Event → Option (Engine S N)
  inject fuel rounds e ev = drain p fuel rounds (record e { queue = e.queue ++ (ev, 0) ∷ [] })

  -- `Engine::advance`
  unfoldable pub advance : ℕ → ℕ → Engine S N → Millis → Option (Engine S N)
  advance fuel rounds e dt =
      drain p fuel rounds (tick_adapters (record e { now = u64 (e.now + dt) }))

  -- One snapshot entry delivered to every northbound adapter, then the next.
  unfoldable pub sync_all : List N → List (DeviceId × CapabilityState) → List N
  sync_all nbs [] = nbs
  sync_all nbs ((device, state) ∷ snapshot) =
      sync_all (map (λ nb. p.nb_state_folded nb device state) nbs) snapshot

  unfoldable pub sync_northbound_startup_state : Engine S N → Engine S N
  sync_northbound_startup_state e = record e {
    northbound = sync_all e.northbound (State.iter e.state);
  }

  -- `Engine::start`
  unfoldable pub start : ℕ → ℕ → Engine S N → Option (Engine S N)
  start fuel rounds e =
      drain p fuel rounds (tick_adapters e) >>= λ e'. some (sync_northbound_startup_state e')

  unfoldable pub next_wake_delay : Engine S N → Option Millis
  next_wake_delay e =
      lesser (least_wake (λ a. adapter_next_wake p a e.now) e.adapters)
        (least_wake (λ n. p.nb_next_wake n e.now) e.northbound)
