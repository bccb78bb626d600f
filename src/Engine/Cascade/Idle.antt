-- ===== src/Engine/Cascade/Idle.antt =====
-- The host's view of src/engine.rs: idle engines, before a call and after.
use domiform.Base.{
  ℕ, suc, ◌>>=◌, ◌+◌, ◌≡◌, Option, some, List, [], ◌∷◌, ◌++◌, All, length, arith, refl, sym, ap,
  ◌∙◌, map, append_assoc, append-nil, nat_eq,
}
use domiform.Model.Capability.{SceneId, Millis}
use domiform.Model.Command.{Event}
use domiform.Engine.Parts.{
  Engine, Ports, Adapter, scheduler, mock_device, virtual_device, protocol, adapter_tick,
  enqueue_all,
}
use domiform.Engine.Dispatch.{u64}
use domiform.Engine.Loop.{drain}
use domiform.Engine.Host.{Call, starting, injecting, advancing, call, Run, finished, next}
use domiform.Engine.Drive.{
  start, sync_northbound_startup_state, tick_each, tick_adapters, inject, advance,
}
use domiform.Engine.Cascade.Live.{OnlySchedulerTimes, is_scheduler, HeadIsScheduler}
use domiform.Engine.Cascade.Drains.{IsWired, IsEntry, Ends, drain-Ends}

-- Between two calls: wired, and nothing left to process.
pub record IsIdle {S N : Type 0} (rank : SceneId → ℕ) (fuel : ℕ) (e : Engine S N) : Type 0 where
  pub wired : IsWired rank fuel e
  pub empty : e.queue ≡ []

length-tick_each :
    {A : Type 0} (tick : A → A × List Event) (xs : List A)
    → length (tick_each tick xs).0 ≡ length xs
unfolding tick_each
length-tick_each tick [] = refl
length-tick_each tick (x ∷ xs) = ap suc (length-tick_each tick xs)

is_scheduler-tick :
    {S N : Type 0} (p : Ports S N) (a : Adapter S) (now : Millis)
    → is_scheduler (adapter_tick p a now).0 ≡ is_scheduler a
unfolding adapter_tick
is_scheduler-tick p (scheduler s) now = refl
is_scheduler-tick p mock_device now = refl
is_scheduler-tick p virtual_device now = refl
is_scheduler-tick p (protocol s) now = refl

HeadIsScheduler-tick_each :
    {S N : Type 0} (p : Ports S N) (as' : List (Adapter S)) (now : Millis)
    → HeadIsScheduler as'
    → HeadIsScheduler (tick_each (λ a. adapter_tick p a now) as').0
unfolding tick_each
HeadIsScheduler-tick_each p [] now h = h
HeadIsScheduler-tick_each p (a ∷ as') now h = is_scheduler-tick p a now ∙ h

module _ {S N : Type 0} where
  -- Enqueueing touches the queue alone.
  enqueue_all_lem :
      (e : Engine S N) (evs : List Event) (d : ℕ)
      → enqueue_all e evs d ≡ record e { queue = e.queue ++ map (λ ev. (ev, d)) evs }
  unfolding enqueue_all
  enqueue_all_lem e [] d = ap (λ q. record e { queue = q }) (sym (append-nil e.queue))
  enqueue_all_lem e (ev ∷ evs) d =
      enqueue_all_lem (record e { queue = e.queue ++ (ev, d) ∷ [] }) evs d
      ∙ ap (λ q. record e { queue = q })
          (append_assoc e.queue ((ev, d) ∷ []) (map (λ ev'. (ev', d)) evs))

-- Events that enter from outside have depth 0.
entries : (cap : ℕ) (evs : List Event) → All (IsEntry cap 0) (map (λ ev. (ev, 0)) evs)
entries cap [] = tt
entries cap (ev ∷ evs) = ((omega arith, omega arith, λ _. refl), entries cap evs)

module _ {S N : Type 0} (p : Ports S N) (only : OnlySchedulerTimes p) (rank : SceneId → ℕ)
    (fuel : ℕ) where
  -- The call returns, and leaves the engine idle.
  abbrev Returns : (ℕ → Option (Engine S N)) → Type 0
  Returns call = (rounds : ℕ) × (e' : Engine S N) × (call rounds ≡ some e') × IsIdle rank fuel e'

  ends→Returns : (e : Engine S N) → Ends p rank fuel e → Returns (λ rounds. drain p fuel rounds e)
  ends→Returns e (rounds, e', run, empty, wired, cap') =
      (rounds, e', run, record { wired = wired; empty = empty })

  ticked-Ends : (e : Engine S N) → IsIdle rank fuel e → Ends p rank fuel (tick_adapters p e)
  unfolding tick_adapters
  ticked-Ends e h = rw enqueue_all_lem (
      drain-Ends p only rank fuel _
        (record {
          first = HeadIsScheduler-tick_each p e.adapters e.now h.wired.first;
          bound = λ dev i b. omega (
            arith,
            h.wired.bound dev i b,
            length-tick_each (λ a. adapter_tick p a e.now) e.adapters,
          );
          ranked = h.wired.ranked;
          shallow = h.wired.shallow;
          room = h.wired.room;
          narrow = h.wired.narrow;
        })
        (rw h.empty (entries e.max_cascade_depth _)))

  rewind :
      (e : Engine S N) (now : Millis)
      → IsIdle rank fuel e
      → IsIdle rank fuel (record e { now = now })
  rewind e now h = record {
    wired = record {
      first = h.wired.first;
      bound = h.wired.bound;
      ranked = h.wired.ranked;
      shallow = h.wired.shallow;
      room = h.wired.room;
      narrow = h.wired.narrow;
    };
    empty = h.empty;
  }

  -- Whatever event is injected into an idle engine, and however its rules feed back into themselves,
  -- the call processes everything and returns to an idle engine.
  inject_returns :
      (e : Engine S N) (ev : Event)
      → IsIdle rank fuel e
      → (rounds : ℕ) × (e' : Engine S N) × (inject p fuel rounds e ev ≡ some e')
        × IsIdle rank fuel e'
  unfolding inject
  inject_returns e ev h = ends→Returns _ (
      drain-Ends p only rank fuel (record e { queue = e.queue ++ (ev, 0) ∷ [] })
        (record {
          first = h.wired.first;
          bound = h.wired.bound;
          ranked = h.wired.ranked;
          shallow = h.wired.shallow;
          room = h.wired.room;
          narrow = h.wired.narrow;
        })
        (rw h.empty (entries e.max_cascade_depth (ev ∷ []))))

  -- However far time advances, and whatever the adapters then report, the call returns to an idle
  -- engine.
  advance_returns :
      (e : Engine S N) (dt : Millis)
      → IsIdle rank fuel e
      → (rounds : ℕ) × (e' : Engine S N) × (advance p fuel rounds e dt ≡ some e')
        × IsIdle rank fuel e'
  unfolding advance
  advance_returns e dt h = ends→Returns _ (ticked-Ends _ (rewind e (u64 (e.now + dt)) h))

  start_returns :
      (e : Engine S N)
      → IsIdle rank fuel e
      → (rounds : ℕ) × (e' : Engine S N) × (start p fuel rounds e ≡ some e') × IsIdle rank fuel e'
  unfolding start sync_northbound_startup_state
  start_returns e h =
      let (rounds, e1, made, idle) = ends→Returns _ (ticked-Ends e h) in
      (
        rounds,
        sync_northbound_startup_state p e1,
        rw (made, ◌>>=◌) refl,
        record {
          wired = record {
            first = idle.wired.first;
            bound = idle.wired.bound;
            ranked = idle.wired.ranked;
            shallow = idle.wired.shallow;
            room = idle.wired.room;
            narrow = idle.wired.narrow;
          };
          empty = idle.empty;
        },
      )

  call_returns :
      (e : Engine S N) (c : Call)
      → IsIdle rank fuel e
      → (rounds : ℕ) × (e' : Engine S N) × (call p fuel rounds e c ≡ some e') × IsIdle rank fuel e'
  unfolding call
  call_returns e starting h = start_returns e h
  call_returns e (injecting ev) h = inject_returns e ev h
  call_returns e (advancing dt) h = advance_returns e dt h

  -- Every sequence of calls of the host can be run to its end: whatever events come in, however far time
  -- advances, whatever the adapters answer and however the rules feed back into each other, each call
  -- returns with an empty queue. The engine is wired at the start, its scenes nest finitely, and only the
  -- scheduler reports elapsed timers.
  pub run_returns :
      (e : Engine S N) (cs : List Call)
      → IsIdle rank fuel e
      → (e' : Engine S N) × Run p fuel e cs e' × IsIdle rank fuel e'
  run_returns e [] h = (e, finished, h)
  run_returns e (c ∷ cs) h =
      let (rounds, e1, made, idle) = call_returns e c h in
      let (e', run, ended) = run_returns e1 cs idle in (e', next rounds made run, ended)
