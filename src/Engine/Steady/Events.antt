-- ===== src/Engine/Steady/Events.antt =====
-- Invariants of src/engine.rs through events and the calls of the host.
use domiform.Base.{
  ℕ, zero, suc, ◌+◌, ◌≡◌, Bool, true, false, Option, none, some, List, refl, ltb, nat_eq,
  Bool-cases, Option-cases, inl, inr, List-cases,
}
use domiform.Base.Assoc.{lookup}
use domiform.Base.Text.{starts_with, text_eq}
use domiform.State
use domiform.Model.Capability.{DeviceId}
use domiform.Model.Command.{TimerKey, Command, Event, Desired, desired_kind}
use domiform.Rule.Rules.{Rule}
use domiform.Rule.Trigger.{predicate_holds}
use domiform.Engine.Parts.{Engine, Ports, Notice, notify, fan_state_folded, for_key_prefix}
use domiform.Engine.Intent.{command_for_requested_change}
use domiform.Engine.Dispatch.{for_each, dispatch_at, u64}
use domiform.Engine.Timers.{owner, find_rule, fire_rule, fire_elapsed_for}
use domiform.Engine.Loop.{react, refan, request_change, timer_event, handle_event, process, drain}
use domiform.Engine.Drive.{tick_adapters, inject, advance, start, sync_northbound_startup_state}
use domiform.Engine.Host.{Call, starting, injecting, advancing, call, Run, finished, next}
use domiform.Engine.Post.{any, Post-value, Post, Post-bind, Post-for_each}
use domiform.Engine.Steady.Sends.{IsSteady, steady-dispatch_at, steady-enqueue_all}

-- The events that report a state.
abbrev pub is_report : Event → Bool
is_report (Event.state_reported _ _) = true
is_report _ = false

-- What is left to show of an invariant: how it fares when the rules run.
pub record IsKept {S N : Type 0} (p : Ports S N) (P : Engine S N → Type 0) (fuel : ℕ) : Type 0 where
  pub steady : IsSteady P
  pub received :
      (e : Engine S N) (ev : Event) (d : ℕ)
      → is_report ev ≡ false
      → P e
      → P (notify e (Notice.event_received ev d))
  pub reacts :
      (e : Engine S N) (ev : Event) (d : ℕ)
      → P e
      → Post Unit P (react p fuel (notify e (Notice.event_received ev d)) ev d)

module _ {S N : Type 0} (p : Ports S N) (P : Engine S N → Type 0) (fuel : ℕ)
    (k : IsKept p P fuel) where
  kept-commands :
      (e : Engine S N) (cmds : List Command) (d : ℕ)
      → P e
      → Post Unit P (for_each (λ e' c. dispatch_at p fuel e' c 1 d) e cmds)
  kept-commands e cmds d h =
      Post-for_each Unit P (λ _. Unit {0}) (λ e' c. dispatch_at p fuel e' c 1 d)
        (λ e' c h' _. steady-dispatch_at p P k.steady fuel e' c 1 d h') e cmds h (any cmds)

  kept-fire_rule : (e : Engine S N) (r : Option Rule) → P e → Post Unit P (fire_rule p fuel e r)
  unfolding fire_rule
  kept-fire_rule e none h = h
  kept-fire_rule e (some r) h = elim (Bool-cases (predicate_holds r.trigger e.state)) [
    | inl holds ↦ rw (holds, fire_rule) (kept-commands e r.commands 0 h)
    | inr fails ↦ rw (fails, fire_rule) h
  ]

  kept-fire_elapsed_for :
      (e : Engine S N) (key : TimerKey) → P e → Post Unit P (fire_elapsed_for p fuel e key)
  unfolding fire_elapsed_for
  kept-fire_elapsed_for e key h = elim (Option-cases (owner e.pending_for key)) [
    | inl stale ↦ rw (stale, fire_elapsed_for) h
    | inr (id, found) ↦
        rw (found, fire_elapsed_for)
          (kept-fire_rule _ (find_rule e.rules id) (k.steady.released e id h))
  ]

  kept-refan : (e : Engine S N) (dev : DeviceId) (want : Desired) → P e → P (refan p e dev want)
  unfolding refan fan_state_folded
  kept-refan e dev want h = elim (Option-cases (State.get e.state dev (desired_kind want))) [
    | inl absent ↦ rw (absent, refan) h
    | inr (st, found) ↦
        rw (found, refan)
          (k.steady.mirrored _ _ (k.steady.noticed e (Notice.state_folded dev st) refl h))
  ]

  kept-request_change :
      (e : Engine S N) (dev : DeviceId) (want : Desired) (d : ℕ)
      → P e
      → Post Unit P (request_change p fuel e dev want d)
  unfolding request_change
  kept-request_change e dev want d h = elim (Option-cases (command_for_requested_change dev want)) [
    | inl nothing ↦ rw (nothing, request_change) (kept-refan e dev want h)
    | inr (c, asked) ↦
        rw (asked, request_change)
          (Post-bind Unit P P (dispatch_at p fuel e c 1 d) (λ e'. some (refan p e' dev want))
            (steady-dispatch_at p P k.steady fuel e c 1 d h) (λ e' h'. kept-refan e' dev want h'))
  ]

  kept-timer_event :
      (e : Engine S N) (key : TimerKey) (d : ℕ)
      → P e
      → Post Unit P (react p fuel e (Event.timer_elapsed key) d)
      → Post Unit P (timer_event p fuel e key d)
  unfolding timer_event
  kept-timer_event e key d h reacted = elim (Option-cases (lookup key e.retries)) [
    | inr (pending, found) ↦
        rw (found, timer_event)
          (steady-dispatch_at p P k.steady fuel _ _ _ 0 (k.steady.settled e key h))
    | inl absent ↦
        rw (absent, timer_event)
          (elim (Bool-cases (starts_with key for_key_prefix)) [
            | inl ours ↦ rw ours (kept-fire_elapsed_for e key h)
            | inr other ↦ rw other reacted
          ])
  ]

  kept-handle_event :
      (e : Engine S N) (ev : Event) (d : ℕ)
      → P e
      → Post Unit P (handle_event p fuel (notify e (Notice.event_received ev d)) ev d)
  unfolding handle_event
  kept-handle_event e (Event.timer_elapsed key) d h =
      kept-timer_event _ key d (k.received e (Event.timer_elapsed key) d refl h)
        (k.reacts e (Event.timer_elapsed key) d h)
  kept-handle_event e (Event.requested_change dev want) d h =
      kept-request_change _ dev want d (k.received e (Event.requested_change dev want) d refl h)
  kept-handle_event e (Event.requested_scene scene) d h =
      steady-dispatch_at p P k.steady fuel _ _ 1 d
        (k.received e (Event.requested_scene scene) d refl h)
  kept-handle_event e ev d h = k.reacts e ev d h

  -- One event keeps the invariant.
  pub kept-process :
      (e : Engine S N) (ev : Event) (d : ℕ) → P e → Post Unit P (process p fuel e ev d)
  unfolding process
  kept-process e ev d h = elim (Bool-cases (ltb e.max_cascade_depth d)) [
    | inl deep ↦ rw (deep, process) (k.steady.noticed e (Notice.cascade_dropped ev d) refl h)
    | inr fine ↦ rw (fine, process) (kept-handle_event e ev d h)
  ]

  -- The loop keeps the invariant.
  pub kept-drain : (rounds : ℕ) (e : Engine S N) → P e → Post Unit P (drain p fuel rounds e)
  unfolding drain
  kept-drain zero e h = tt
  kept-drain (suc rounds) e h = elim (List-cases e.queue) [
    | inl done ↦ rw (done, drain) h
    | inr ((ev, d), rest, front) ↦
        rw (front, drain)
          (Post-bind Unit P P (process p fuel (record e { queue = rest }) ev d)
            (drain p fuel rounds) (kept-process _ ev d (k.steady.queued e rest h))
            (λ e' h'. kept-drain rounds e' h'))
  ]

  kept-ticked : (e : Engine S N) → P e → P (tick_adapters p e)
  unfolding tick_adapters
  kept-ticked e h =
      steady-enqueue_all p P k.steady _ _ 0 (k.steady.mirrored _ _ (k.steady.adapted e _ h))

  kept-call : (rounds : ℕ) (e : Engine S N) (c : Call) → P e → Post Unit P (call p fuel rounds e c)
  unfolding call start inject advance sync_northbound_startup_state
  kept-call rounds e starting h =
      Post-bind Unit P P (drain p fuel rounds (tick_adapters p e)) _
        (kept-drain rounds _ (kept-ticked e h)) (λ e' h'. k.steady.mirrored e' _ h')
  kept-call rounds e (injecting ev) h = kept-drain rounds _ (k.steady.queued e _ h)
  kept-call rounds e (advancing dt) h =
      kept-drain rounds _ (kept-ticked _ (k.steady.timed e (u64 (e.now + dt)) h))

  -- Every run keeps the invariant.
  pub kept-run : {e e' : Engine S N} {cs : List Call} → Run p fuel e cs e' → P e → P e'
  kept-run finished h = h
  kept-run (next {e} {e1} {c = c} rounds made run) h =
      kept-run run (Post-value P (call p fuel rounds e c) e1 (kept-call rounds e c h) made)
