-- ===== src/Engine/Loop.antt =====
-- The event loop of src/engine.rs: one event, and `drain`.
use domiform.Base.{
  ℕ, zero, suc, Option, none, some, List, [], ◌∷◌, ◌++◌, ◌>>=◌, ltb, if◌then◌else◌, nat_eq,
}
use domiform.Base.Assoc.{lookup, remove}
use domiform.Base.Text.{starts_with, text_eq}
use domiform.State
use domiform.Model.Capability.{CapabilityState, DeviceId, RuleId, Millis, kind}
use domiform.Model.Command.{TimerKey, Desired, desired_kind, Command, Event}
use domiform.Rule.Truth.{is_true}
use domiform.Rule.Trigger.{matches}
use domiform.Rule.Condition.{eval}
use domiform.Rule.Rules.{Rule}
use domiform.Engine.Parts.{Engine, Ports, Notice, for_key_prefix, notify, fan_state_folded}
use domiform.Engine.Intent.{command_for_requested_change}
use domiform.Engine.Dispatch.{for_each, dispatch_at}
use domiform.Engine.Timers.{arm_for_timer, cancel_reverted_for_timers, fire_elapsed_for}

-- What the rules ask for: notices (newest first), timers to arm and commands to dispatch.
pub record Asked : Type 0 where
  pub notices : List Notice
  pub arm_for : List (RuleId × Millis)
  pub commands : List Command

abbrev pub ask_nothing : Asked
ask_nothing = record { notices = []; arm_for = []; commands = [] }

-- What a rule that fires asks for.
unfoldable pub ask_fired : Asked → Rule → Option Millis → Asked
ask_fired asked rule (some d) = record asked { arm_for = asked.arm_for ++ (rule.id, d) ∷ [] }
ask_fired asked rule none = record asked { commands = asked.commands ++ rule.commands }

-- One turn of the loop over the rules.
unfoldable pub consider : State.StateStore → Event → Option CapabilityState → Asked → Rule → Asked
consider s ev prior asked rule =
    let truth = eval rule.condition s in
    let fired = is_true truth in
    let noticed = record asked {
      notices = Notice.rule_considered rule.id truth fired ∷ asked.notices;
    } in
    if matches rule.trigger ev prior
    then (if fired then ask_fired noticed rule rule.for_duration else noticed)
    else asked

unfoldable pub consider_all :
    State.StateStore → Event → Option CapabilityState → Asked → List Rule → Asked
consider_all s ev prior asked [] = asked
consider_all s ev prior asked (rule ∷ rules) =
    consider_all s ev prior (consider s ev prior asked rule) rules

module _ {S N : Type 0} (p : Ports S N) where
  unfoldable pub fold_state : Engine S N → Event → Engine S N
  fold_state e (Event.state_reported device state) =
      let e' = fan_state_folded p e device state in
      record e' { state = State.set e'.state device state }
  fold_state e _ = e

  unfoldable pub prior_of : Engine S N → Event → Option CapabilityState
  prior_of e (Event.state_reported device state) = State.get e.state device (kind state)
  prior_of e _ = none

  -- `cancel_reverted_for_timers`, on a report only.
  unfoldable pub cancel_on_report : Engine S N → Event → Option (Engine S N)
  cancel_on_report e (Event.state_reported _ _) = cancel_reverted_for_timers p e
  cancel_on_report e _ = some e

  -- Arm the timers, then dispatch the commands.
  unfoldable pub perform : ℕ → Engine S N → Asked → ℕ → Option (Engine S N)
  perform fuel e asked depth =
      for_each (λ e' (timer : RuleId × Millis). arm_for_timer p e' timer.0 timer.1) e asked.arm_for
      >>= λ armed. for_each (λ e' c. dispatch_at p fuel e' c 1 depth) armed asked.commands

  -- An event that no interception takes: fold it and run the rules.
  unfoldable pub react : ℕ → Engine S N → Event → ℕ → Option (Engine S N)
  react fuel e ev depth =
      let prior = prior_of e ev in
      cancel_on_report (fold_state e ev) ev >>= λ folded.
      let asked = consider_all folded.state ev prior ask_nothing folded.rules in
      perform fuel (record folded { trace = asked.notices ++ folded.trace }) asked depth

  -- The re-fan of the stored value to the mirrors, after a request.
  unfoldable pub refan : Engine S N → DeviceId → Desired → Engine S N
  refan e device desired = elim (State.get e.state device (desired_kind desired)) [
    | some state ↦ fan_state_folded p e device state
    | none ↦ e
  ]

  unfoldable pub request_change : ℕ → Engine S N → DeviceId → Desired → ℕ → Option (Engine S N)
  request_change fuel e device desired depth = elim (command_for_requested_change device desired) [
    | some cmd ↦ dispatch_at p fuel e cmd 1 depth >>= λ e'. some (refan e' device desired)
    | none ↦ some (refan e device desired)
  ]

  -- A timer: a retry, a `for:` timer, or an event for the rules.
  unfoldable pub timer_event : ℕ → Engine S N → TimerKey → ℕ → Option (Engine S N)
  timer_event fuel e key depth = elim (lookup key e.retries) [
    | some pending ↦
        dispatch_at p fuel (record e { retries = remove key e.retries }) pending.command
          pending.attempt 0
    | none ↦
        if starts_with key for_key_prefix
        then fire_elapsed_for p fuel e key
        else react fuel e (Event.timer_elapsed key) depth
  ]

  unfoldable pub handle_event : ℕ → Engine S N → Event → ℕ → Option (Engine S N)
  handle_event fuel e (Event.timer_elapsed key) depth = timer_event fuel e key depth
  handle_event fuel e (Event.requested_change device desired) depth =
      request_change fuel e device desired depth
  handle_event fuel e (Event.requested_scene scene) depth =
      dispatch_at p fuel e (Command.activate_scene scene) 1 depth
  handle_event fuel e ev depth = react fuel e ev depth

  -- The body of `drain`: an event that has been popped.
  unfoldable pub process : ℕ → Engine S N → Event → ℕ → Option (Engine S N)
  process fuel e ev depth =
      if ltb e.max_cascade_depth depth
      then some (notify e (Notice.cascade_dropped ev depth))
      else handle_event fuel (notify e (Notice.event_received ev depth)) ev depth

  -- `pop_front`
  abbrev pub pop : Engine S N → Option ((Event × ℕ) × Engine S N)
  pop e = elim e.queue [ [] ↦ none | entry ∷ rest ↦ some (entry, record e { queue = rest }) ]

  -- `drain`, for at most `rounds` events; `none` where they are not enough.
  unfoldable pub drain : ℕ → ℕ → Engine S N → Option (Engine S N)
  drain fuel zero e = none
  drain fuel (suc rounds) e = elim (pop e) [
    | none ↦ some e
    | some ((ev, depth), popped) ↦ process fuel popped ev depth >>= λ e'. drain fuel rounds e'
  ]
