-- ===== src/Engine/Parts.antt =====
-- The engine's state (src/engine.rs), the adapters that it drives (src/adapters/mod.rs) and what it
-- tells its observers (src/observe.rs).
use domiform.Base.{
  ℕ, ◌-◌, ◌*◌, ◌^◌, min, Bool, Option, none, some, List, [], ◌∷◌, ◌++◌, map, ◌>>=◌, get_elem?, set,
  nat_eq,
}
use domiform.Base.Assoc.{Assoc, insert}
use domiform.Base.Text.{Text, bytes}
use domiform.State
use domiform.State.{StateStore}
use domiform.Model.Capability.{CapabilityState, DeviceId, SceneId, RuleId, Millis, AdapterIdx}
use domiform.Model.Command.{TimerKey, Command, Event}
use domiform.Rule.Truth.{Truth}
use domiform.Rule.Rules.{Rule}
use domiform.Adapters.Outcome.{DispatchOutcome}
use domiform.Adapters.Scheduler
use domiform.Adapters.Scheduler.{SchedulerAdapter}
use domiform.Adapters.Echo.{mock_dispatch, virtual_dispatch}

abbrev pub scheduler_idx : AdapterIdx
scheduler_idx = 0

abbrev pub retry_key_prefix : Text
retry_key_prefix = bytes "__retry:"

abbrev pub for_key_prefix : Text
for_key_prefix = bytes "__for:"

abbrev pub default_max_cascade_depth : ℕ
default_max_cascade_depth = 32

pub record RetryPolicy : Type 0 where
  pub max_attempts : ℕ  -- u32
  pub base_backoff : Millis

-- `RetryPolicy::default`
abbrev pub default_retry : RetryPolicy
default_retry = record { max_attempts = 3; base_backoff = 1000 }

-- The delay after the given (1-based) attempt has failed, saturating in u64.
unfoldable pub backoff : RetryPolicy → ℕ → Millis
backoff policy failed_attempt =
    let shift = min failed_attempt 16 - 1 in min (policy.base_backoff * 2 ^ shift) (2 ^ 64 - 1)

pub record PendingRetry : Type 0 where
  pub command : Command
  pub attempt : ℕ  -- u32

pub record PendingFor : Type 0 where
  pub key : TimerKey

-- The calls of the `Observer` trait.
pub data Notice : Type 0 where
  dispatch_failed : (command : Command) (reason : Text) (transient : Bool) (attempt : ℕ) → Notice
  retry_scheduled : (command : Command) (next_attempt : ℕ) (delay : Millis) → Notice
  command_failed : (command : Command) (reason : Text) (attempts : ℕ) → Notice
  cascade_dropped : (event : Event) (depth : ℕ) → Notice
  event_received : (event : Event) (depth : ℕ) → Notice
  state_folded : (device : DeviceId) (state : CapabilityState) → Notice
  rule_considered : (rule : RuleId) (truth : Truth) (fired : Bool) → Notice
  command_dispatched : (command : Command) (depth : ℕ) → Notice
  scene_expanded : (scene : SceneId) (count : ℕ) → Notice

-- What the engine calls of adapters whose code is not modelled here: a protocol adapter or the clock
-- with its state in `S`, a northbound adapter with its state in `N`.
pub record Ports (S N : Type 0) : Type 0 where
  pub dispatch : S → Command → Millis → S × DispatchOutcome
  pub tick : S → Millis → S × List Event
  pub next_wake : S → Millis → Option Millis
  pub nb_tick : N → Millis → N × List Event
  pub nb_next_wake : N → Millis → Option Millis
  pub nb_state_folded : N → DeviceId → CapabilityState → N

-- `Box<dyn Adapter>`
pub data Adapter (S : Type 0) : Type 0 where
  scheduler : SchedulerAdapter → Adapter S
  mock_device : Adapter S
  virtual_device : Adapter S
  protocol : S → Adapter S

-- The observers see one sequence of notices, the newest first in `trace`.
pub record Engine (S N : Type 0) : Type 0 where
  pub now : Millis
  pub queue : List (Event × ℕ)
  pub state : StateStore
  pub rules : List Rule
  pub adapters : List (Adapter S)
  pub northbound : List N
  pub device_to_adapter : Assoc DeviceId AdapterIdx
  pub scenes : Assoc SceneId (List Command)
  pub trace : List Notice
  pub retry : RetryPolicy
  pub retries : Assoc TimerKey PendingRetry
  pub retry_counter : ℕ
  pub pending_for : Assoc RuleId PendingFor
  pub for_counter : ℕ
  pub max_cascade_depth : ℕ

module _ {S N : Type 0} where
  -- `Engine::new`
  abbrev pub new : Engine S N
  new = record {
    now = 0;
    queue = [];
    state = State.empty;
    rules = [];
    adapters = scheduler (record { pending = [] }) ∷ [];
    northbound = [];
    device_to_adapter = [];
    scenes = [];
    trace = [];
    retry = default_retry;
    retries = [];
    retry_counter = 0;
    pending_for = [];
    for_counter = 0;
    max_cascade_depth = default_max_cascade_depth;
  }

  -- `Engine::add_adapter`, without the index that it returns.
  abbrev pub add_adapter : Engine S N → Adapter S → Engine S N
  add_adapter e adapter = record e { adapters = e.adapters ++ adapter ∷ [] }

  abbrev pub add_northbound : Engine S N → N → Engine S N
  add_northbound e adapter = record e { northbound = e.northbound ++ adapter ∷ [] }

  abbrev pub bind_device : Engine S N → DeviceId → AdapterIdx → Engine S N
  bind_device e device adapter = record e {
    device_to_adapter = insert device adapter e.device_to_adapter;
  }

  abbrev pub add_rule : Engine S N → Rule → Engine S N
  add_rule e rule = record e { rules = e.rules ++ rule ∷ [] }

  abbrev pub add_scene : Engine S N → SceneId → List Command → Engine S N
  add_scene e scene commands = record e { scenes = insert scene commands e.scenes }

  abbrev pub set_retry_policy : Engine S N → RetryPolicy → Engine S N
  set_retry_policy e policy = record e { retry = policy }

  abbrev pub set_max_cascade_depth : Engine S N → ℕ → Engine S N
  set_max_cascade_depth e depth = record e { max_cascade_depth = depth }

  -- `notify`
  unfoldable pub notify : Engine S N → Notice → Engine S N
  notify e notice = record e { trace = notice ∷ e.trace }

  unfoldable pub enqueue : Engine S N → Event → ℕ → Engine S N
  enqueue e ev depth = record e { queue = e.queue ++ (ev, depth) ∷ [] }

  unfoldable pub enqueue_all : Engine S N → List Event → ℕ → Engine S N
  enqueue_all e [] depth = e
  enqueue_all e (ev ∷ evs) depth =
      enqueue_all (record e { queue = e.queue ++ (ev, depth) ∷ [] }) evs depth

module _ {S N : Type 0} (p : Ports S N) where
  -- `Adapter::dispatch`; `none` is a panic.
  unfoldable pub adapter_dispatch :
      Adapter S → Command → Millis → Option (Adapter S × DispatchOutcome)
  adapter_dispatch (scheduler s) cmd now =
      let (s', outcome) = Scheduler.dispatch s cmd now in some (scheduler s', outcome)
  adapter_dispatch mock_device cmd now = some (mock_device, mock_dispatch cmd)
  adapter_dispatch virtual_device cmd now =
      virtual_dispatch cmd >>= λ outcome. some (virtual_device, outcome)
  adapter_dispatch (protocol s) cmd now =
      let (s', outcome) = p.dispatch s cmd now in some (protocol s', outcome)

  -- `Adapter::tick`
  unfoldable pub adapter_tick : Adapter S → Millis → Adapter S × List Event
  adapter_tick (scheduler s) now = let (s', evs) = Scheduler.tick s now in (scheduler s', evs)
  adapter_tick mock_device now = (mock_device, [])
  adapter_tick virtual_device now = (virtual_device, [])
  adapter_tick (protocol s) now = let (s', evs) = p.tick s now in (protocol s', evs)

  -- `Adapter::next_wake`
  unfoldable pub adapter_next_wake : Adapter S → Millis → Option Millis
  adapter_next_wake (scheduler s) now = Scheduler.next_wake s now
  adapter_next_wake mock_device now = none
  adapter_next_wake virtual_device now = none
  adapter_next_wake (protocol s) now = p.next_wake s now

  -- `self.adapters[idx].dispatch(&cmd, self.now)`; an index out of bounds panics.
  unfoldable pub dispatch_to :
      Engine S N → AdapterIdx → Command → Option (Engine S N × DispatchOutcome)
  dispatch_to e idx cmd = get_elem? e.adapters idx >>= λ adapter.
      adapter_dispatch adapter cmd e.now >>= λ result.
      some (record e { adapters = set e.adapters idx result.0 }, result.1)

  -- `fan_state_folded`
  unfoldable pub fan_state_folded : Engine S N → DeviceId → CapabilityState → Engine S N
  unfolding notify
  fan_state_folded e device state =
      let e' = notify e (Notice.state_folded device state) in
      record e' { northbound = map (λ nb. p.nb_state_folded nb device state) e.northbound }
