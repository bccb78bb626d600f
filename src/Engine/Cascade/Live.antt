-- ===== src/Engine/Cascade/Live.antt =====
-- What the loop needs of an engine to go on, and how commands and adapters keep it.
use domiform.Base.{
  ℕ, suc, ◌+◌, ◌≤◌, ◌<◌, ◌≡◌, Bool, true, false, some, List, [], ◌∷◌, ◌++◌, All, length, arith,
  nat_eq, refl,
}
use domiform.Base.Assoc.{Assoc, lookup}
use domiform.State.{StateStore}
use domiform.Model.Capability.{SceneId, DeviceId, AdapterIdx, Millis}
use domiform.Model.Command.{Command, Event}
use domiform.Adapters.Outcome.{DispatchOutcome, ok}
use domiform.Adapters.Scheduler
use domiform.Adapters.Echo.{mock_dispatch, virtual-mock}
use domiform.Engine.Parts.{
  Engine, Ports, Adapter, scheduler, mock_device, virtual_device, protocol, adapter_dispatch,
}
use domiform.Engine.Intent.{resolve_implicit_state_command}
use domiform.Engine.Dispatch.{u32}

abbrev pub is_timer : Event → Bool
is_timer (Event.timer_elapsed _) = true
is_timer _ = false

abbrev pub IsQuiet : DispatchOutcome → Type 0
IsQuiet (ok evs) = All (λ ev. is_timer ev ≡ false) evs
IsQuiet _ = Unit

-- Only the scheduler reports elapsed timers: no other adapter answers a command with one.
pub record OnlySchedulerTimes {S N : Type 0} (p : Ports S N) : Type 0 where
  pub quiet : (s : S) (c : Command) (now : Millis) → IsQuiet (p.dispatch s c now).1

-- How deep the expansion of a command goes, for scenes of the given ranks.
abbrev pub height : (SceneId → ℕ) → Command → ℕ
height rank (Command.activate_scene scene) = suc (rank scene)
height rank _ = 0

pub height-resolve :
    (rank : SceneId → ℕ) (s : StateStore) (c : Command)
    → height rank (resolve_implicit_state_command s c) ≡ height rank c
unfolding resolve_implicit_state_command
height-resolve rank s c = ground arith

abbrev pub is_scheduler : {S : Type 0} → Adapter S → Bool
is_scheduler (scheduler _) = true
is_scheduler _ = false

abbrev pub HeadIsScheduler : {S : Type 0} → List (Adapter S) → Type 0
HeadIsScheduler [] = ⊥
HeadIsScheduler (a ∷ as') = is_scheduler a ≡ true

-- An event of the given depth, and no timer.
abbrev pub Produced : ℕ → Event × ℕ → Type 0
Produced depth (ev, d) = (is_timer ev ≡ false) × (d ≡ depth)

-- The engine has its scheduler, every bound device has an adapter, and scenes nest to a depth below
-- `fuel`, which `rank` measures. Beyond `q`, the queue holds events that a dispatch at `d` produced.
pub record Live {S : Type 0} (rank : SceneId → ℕ) (fuel limit d : ℕ) (q : List (Event × ℕ))
    (adapters : List (Adapter S)) (bindings : Assoc DeviceId AdapterIdx)
    (scenes : Assoc SceneId (List Command)) (cap : ℕ) (queue : List (Event × ℕ)) : Type 0 where
  pub first : HeadIsScheduler adapters
  pub bound : (dev i : ℕ) → lookup dev bindings ≡ some i → i < length adapters
  pub ranked :
      (scene : SceneId) (cmds : List Command)
      → lookup scene scenes ≡ some cmds
      → All (λ c. height rank c ≤ rank scene) cmds
  pub shallow : (scene : SceneId) → suc (rank scene) < fuel
  pub room : 0 < fuel
  pub capped : cap ≡ limit
  pub fresh : List (Event × ℕ)
  pub queued : queue ≡ q ++ fresh
  pub produced : All (Produced (u32 (d + 1))) fresh

-- A live engine.
abbrev pub Alive :
    {S N : Type 0} (rank : SceneId → ℕ) (fuel limit d : ℕ) (q : List (Event × ℕ))
    → Engine S N
    → Type 0
Alive rank fuel limit d q e =
    Live rank fuel limit d q e.adapters e.device_to_adapter e.scenes e.max_cascade_depth e.queue

scheduler-IsQuiet :
    (s : Scheduler.SchedulerAdapter) (c : Command) (now : Millis)
    → IsQuiet (Scheduler.dispatch s c now).1
unfolding Scheduler.dispatch
scheduler-IsQuiet s c now = ground arith

mock-IsQuiet : (c : Command) → IsQuiet (mock_dispatch c)
unfolding mock_dispatch
mock-IsQuiet c = ground arith

pub adapter_answers :
    {S N : Type 0} (p : Ports S N)
    → OnlySchedulerTimes p
    → (a : Adapter S) (c : Command) (now : Millis)
    → (a' : Adapter S) × (o : DispatchOutcome) × (adapter_dispatch p a c now ≡ some (a', o))
      × (is_scheduler a' ≡ is_scheduler a)
      × IsQuiet o
unfolding adapter_dispatch
adapter_answers p only (scheduler s) c now =
    let (s', o) = Scheduler.dispatch s c now in
    (scheduler s', o, refl, refl, scheduler-IsQuiet s c now)
adapter_answers p only mock_device c now =
    (mock_device, mock_dispatch c, refl, refl, mock-IsQuiet c)
adapter_answers p only virtual_device c now =
    (virtual_device, mock_dispatch c, rw virtual-mock, refl, mock-IsQuiet c)
adapter_answers p only (protocol s) c now =
    let (s', o) = p.dispatch s c now in (protocol s', o, refl, refl, only.quiet s c now)
