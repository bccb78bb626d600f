-- ===== src/Tests/Engine.antt =====
-- Tests of the model of src/engine.rs.
use domiform.Base.{
  ℕ, ◌≡◌, ◌<◌, ◌+◌, ◌%◌, ◌^◌, ◌⊎◌, refl, true, false, none, some, List, [], ◌∷◌, arith, length,
  nat_eq, ◌≤◌, ◌↔◌, In, ◌==◌, if◌then◌else◌,
}
use domiform.Base.Int.{pos, negsuc, ◌+ℤ◌, clamp_ℤ}
use domiform.Base.Assoc.{lookup, insert, remove, IsMap}
use domiform.Base.Text.{bytes, text_eq}
use domiform.State
use domiform.State.{StateStore}
use domiform.Model.Capability.{
  CapabilityKind, CapabilityState, SceneId, Millis, kind, is_writable, as_i64,
}
use domiform.Model.Command.{Command, Event, TimerKey, Desired, target_device}
use domiform.Rule.Trigger.{Trigger}
use domiform.Rule.Condition.{always}
use domiform.Rule.Rules as Rules
use domiform.Rule.Rules.{Rule}
use domiform.Adapters.Outcome.{permanent, transient}
use domiform.Adapters.Scheduler
use domiform.Adapters.Scheduler.{SchedulerAdapter}
use domiform.Engine.Loop.{timer_event}
use domiform.Adapters.Echo.{echoed, mock_dispatch}
use domiform.Engine.Parts.{
  Engine, Ports, Notice, notify, dispatch_to, adapter_dispatch, enqueue_all, mock_device, scheduler,
  new, add_adapter, bind_device, add_rule, add_scene, backoff, default_retry,
}
use domiform.Engine.Intent.{command_for_requested_change, resolve_implicit_state_command}
use domiform.Engine.Dispatch.{
  u32, u64, retry_key, handle_outcome, dispatch_at, dispatch_resolved, for_each, dispatch_device,
  target,
}
use domiform.Engine.Host.{Call, starting, injecting, advancing, Run}
use domiform.Engine.Cascade.Live.{OnlySchedulerTimes}
use domiform.Engine.Cascade.Idle.{IsIdle, run_returns}
use domiform.Engine.Replay.{replay, run-replay}
use domiform.Engine.Retries.{IsBounded, run-IsBounded}
use domiform.Engine.Sustain.Pending.{IsFit}
use domiform.Engine.Sustain.Timely.{IsTimely, run-IsTimely}
use domiform.Engine.Depths.{Deepens, dispatch_at-Deepens}
use domiform.Engine.Scenes.{self_scene_diverges}
use domiform.Engine.Requests.{request_iff_writable, adjust_exact}
use domiform.Engine.Transient.{transient_waits}

-- A clock that accepts no command and a mirror that stays as it is.
abbrev ports : Ports (Unit {0}) (Unit {0})
ports = record {
  dispatch = λ s c now. (s, permanent (bytes "clock device accepts no commands"));
  tick = λ s now. (s, []);
  next_wake = λ s now. some 60000;
  nb_tick = λ n now. (n, []);
  nb_next_wake = λ n now. none;
  nb_state_folded = λ n d s. n;
}

ports-OnlySchedulerTimes : OnlySchedulerTimes ports
ports-OnlySchedulerTimes = record { quiet = λ s c now. tt }

-- Motion turns the light on, and the light's report turns it on again: a feedback loop.
abbrev motion : Rule
motion =
    Rules.new 0 (Trigger.changed 1 CapabilityKind.occupancy true) always
      (Command.set_switch 2 true ∷ [])

abbrev feedback : Rule
feedback =
    Rules.new 1 (Trigger.reports 2 CapabilityKind.switch) always (Command.set_switch 2 true ∷ [])

-- No motion for five minutes turns the light off.
abbrev lasting : Rule
lasting =
    Rules.with_for_duration
      (Rules.new 2 (Trigger.changed 1 CapabilityKind.occupancy false) always
        (Command.set_switch 2 false ∷ []))
      (some 300000)

abbrev home : Engine (Unit {0}) (Unit {0})
home =
    add_rule (add_rule (add_rule (bind_device (add_adapter new mock_device) 2 1) motion) feedback)
      lasting

abbrev flat : SceneId → ℕ
flat scene = 0

home-bound : (dev i : ℕ) → lookup dev home.device_to_adapter ≡ some i → i < length home.adapters
unfolding lookup insert
home-bound dev i h = ground arith

home-IsIdle : IsIdle flat 2 home
unfolding lookup
home-IsIdle = record {
  wired = record {
    first = refl;
    bound = home-bound;
    ranked = λ scene cmds h. cc;
    shallow = λ scene. omega arith;
    room = omega arith;
    narrow = omega arith;
  };
  empty = refl;
}

abbrev moved : Event
moved = Event.state_reported 1 (CapabilityState.occupancy true)

abbrev calls : List Call
calls =
    starting
    ∷ injecting moved
    ∷ advancing 60000
    ∷ injecting (Event.state_reported 1 (CapabilityState.occupancy false))
    ∷ advancing 300000
    ∷ []

abbrev ran : (e' : Engine (Unit {0}) (Unit {0})) × Run ports 2 home calls e' × IsIdle flat 2 e'
ran = run_returns ports ports-OnlySchedulerTimes flat 2 home calls home-IsIdle

run_returns_example :
    (e' : Engine (Unit {0}) (Unit {0})) × Run ports 2 home calls e' × IsIdle flat 2 e'
run_returns_example = run_returns ports ports-OnlySchedulerTimes flat 2 home calls home-IsIdle

run-replay_example : ran.0.state ≡ replay State.empty ran.0.trace
run-replay_example = run-replay ports 2 State.empty home ran.0 calls ran.1 refl

home-IsFit : IsFit home.rules
home-IsFit = ((λ after h. cc), ((λ after h. cc), ((λ after h. (refl, refl)), tt)))

home-IsTimely : IsTimely home
unfolding lookup
home-IsTimely = record { fit = home-IsFit; holding = λ id pending found. cc }

run-IsTimely_example : IsTimely ran.0
run-IsTimely_example = run-IsTimely ports 2 home ran.0 calls ran.1 home-IsTimely

home-IsBounded : IsBounded home
unfolding lookup
home-IsBounded = record { fits = omega arith; bounded = λ key pending found. cc }

run-IsBounded_example : IsBounded ran.0
run-IsBounded_example = run-IsBounded ports 2 home ran.0 calls ran.1 home-IsBounded

abbrev light : Command
light = Command.set_switch 2 true

no_timers-IsMap : IsMap {K = TimerKey} {V = Millis} []
unfolding IsMap
no_timers-IsMap = tt

abbrev first_key : TimerKey
first_key = retry_key (u64 1)

transient_waits_example :
    (e' : Engine (Unit {0}) (Unit {0})) × (s' : SchedulerAdapter) × (handle_outcome ports home
        (transient (bytes "radio busy"))
        light
        1
        0
      ≡ some e')
    × (e'.adapters ≡ scheduler s' ∷ mock_device ∷ [])
    × (lookup (bytes "hall") e'.retries ≡ (
        if first_key == bytes "hall"
        then some (record { command = light; attempt = u32 2 })
        else lookup (bytes "hall") home.retries))
    × (lookup (bytes "hall") s'.pending ≡ (
        if first_key == bytes "hall"
        then some ((0 + backoff default_retry 1) % 2 ^ 64)
        else lookup (bytes "hall") []))
    × (In (Event.timer_elapsed first_key) (Scheduler.tick s' 1000).1
        ↔ ((0 + backoff default_retry 1) % 2 ^ 64 ≤ 1000))
    × (timer_event ports 9 e' first_key 3
        ≡ dispatch_at ports 9 (record e' { retries = remove first_key e'.retries }) light (u32 2) 0)
    × (e'.queue ≡ [])
transient_waits_example =
    transient_waits ports home light (bytes "radio busy") 1 0 (record { pending = [] })
      (mock_device ∷ []) (bytes "hall") 1000 9 3 refl no_timers-IsMap (omega arith)

first_backoffs : (backoff default_retry 1 ≡ 1000) × (backoff default_retry 2 ≡ 2000)
unfolding backoff
first_backoffs = (refl, refl)

-- A scene that activates itself.
abbrev looping : Engine (Unit {0}) (Unit {0})
looping = add_scene home 7 (Command.activate_scene 7 ∷ light ∷ [])

looping-scene : lookup 7 looping.scenes ≡ some (Command.activate_scene 7 ∷ light ∷ [])
unfolding lookup insert
looping-scene = refl

self_scene_diverges_example : dispatch_at ports 1000 looping (Command.activate_scene 7) 1 0 ≡ none
self_scene_diverges_example =
    self_scene_diverges ports looping 7 (light ∷ []) 1000 1 0 looping-scene

-- A scene that activates another one.
abbrev nested : Engine (Unit {0}) (Unit {0})
nested = add_scene (add_scene home 8 (light ∷ [])) 7 (Command.activate_scene 8 ∷ light ∷ [])

abbrev lit : Event × ℕ
lit = (Event.state_reported 2 (CapabilityState.switch true), 4)

abbrev settled : Engine (Unit {0}) (Unit {0})
settled = record nested {
  queue = lit ∷ lit ∷ [];
  trace =
      Notice.command_dispatched light 3
      ∷ Notice.command_dispatched light 3
      ∷ Notice.scene_expanded 8 1
      ∷ Notice.command_dispatched (Command.activate_scene 8) 3
      ∷ Notice.scene_expanded 7 2
      ∷ Notice.command_dispatched (Command.activate_scene 7) 3
      ∷ [];
}

nested_settles : dispatch_at ports 9 nested (Command.activate_scene 7) 1 3 ≡ some settled
unfolding dispatch_at dispatch_resolved resolve_implicit_state_command lookup notify insert for_each
    dispatch_device target target_device dispatch_to adapter_dispatch handle_outcome mock_dispatch
    enqueue_all
nested_settles = refl

dispatch_at-Deepens_example : Deepens 3 nested.queue settled.queue
dispatch_at-Deepens_example =
    dispatch_at-Deepens ports 9 nested settled (Command.activate_scene 7) 1 3 nested_settles

request_iff_writable_example :
    ((is_writable (kind (CapabilityState.switch true)) ≡ false)
      × (command_for_requested_change 2 (Desired.set (CapabilityState.switch true)) ≡ none))
    ⊎ ((is_writable (kind (CapabilityState.switch true)) ≡ true)
        × (c : Command) × (command_for_requested_change 2
              (Desired.set (CapabilityState.switch true))
            ≡ some c)
        × (target_device c ≡ some 2)
        × (echoed c ≡ some (CapabilityState.switch true)))
request_iff_writable_example = request_iff_writable 2 (CapabilityState.switch true)

abbrev dim : StateStore
dim = State.set State.empty 2 (CapabilityState.brightness 15)

dim-known : State.num_value dim 2 CapabilityKind.brightness ≡ some (pos 15)
unfolding State.num_value State.set State.get lookup insert kind as_i64
dim-known = refl

adjust_exact_example :
    (c : Command) × (v : ℕ) × (command_for_requested_change 2
        (Desired.adjust_brightness (negsuc 19))
      ≡ some c)
    × (resolve_implicit_state_command dim c ≡ Command.set_brightness 2 v none)
    × (pos v ≡ clamp_ℤ (pos 15 +ℤ negsuc 19) (pos 0) (pos 100))
adjust_exact_example = adjust_exact dim 2 (negsuc 19) (pos 15) (λ e. cc) dim-known
