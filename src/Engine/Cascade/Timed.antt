-- ===== src/Engine/Cascade/Timed.antt =====
-- The handling of one event in src/engine.rs, and live engines.
use domiform.Base.{
  ℕ, ◌≡◌, true, Option, none, some, List, nat_eq, refl, Option-cases, inl, inr, ltb, Bool-cases,
}
use domiform.Base.Assoc.{lookup}
use domiform.Base.Text.{starts_with, text_eq}
use domiform.State
use domiform.Model.Capability.{SceneId, DeviceId, RuleId, Millis}
use domiform.Model.Command.{Command, Event, TimerKey, Desired, desired_kind}
use domiform.Rule.Rules.{Rule}
use domiform.Rule.Trigger.{predicate_holds}
use domiform.Engine.Parts.{Engine, Ports, Notice, notify, for_key_prefix, fan_state_folded}
use domiform.Engine.Intent.{command_for_requested_change}
use domiform.Engine.Dispatch.{for_each, dispatch_at}
use domiform.Engine.Timers.{
  cancel_for, schedule_for, arm_for_timer, reverted, cancel_reverted_for_timers, fire_rule,
  fire_elapsed_for, owner,
}
use domiform.Engine.Loop.{
  Asked, fold_state, cancel_on_report, perform, react, refan, request_change, timer_event,
  handle_event, process,
}
use domiform.Engine.Post.{any, Post, Post-bind, Post-for_each}
use domiform.Engine.Cascade.Live.{is_timer, OnlySchedulerTimes, Alive}
use domiform.Engine.Cascade.Sends.{Alive-notify, to_scheduler, dispatch_at-Alive}

module _ {S N : Type 0} (p : Ports S N) (only : OnlySchedulerTimes p) (rank : SceneId → ℕ)
    (fuel limit d : ℕ) (q : List (Event × ℕ)) where
  cancel_for-Alive :
      (e : Engine S N) (id : RuleId)
      → Alive rank fuel limit d q e
      → Post ⊥ (Alive rank fuel limit d q) (cancel_for p e id)
  unfolding cancel_for
  cancel_for-Alive e id h = elim (Option-cases (lookup id e.pending_for)) [
    | inl absent ↦ rw (absent, cancel_for) h
    | inr (prev, found) ↦ rw (found, cancel_for) (to_scheduler p only rank fuel limit d q _ _ h)
  ]

  arm_for_timer-Alive :
      (e : Engine S N) (id : RuleId) (after : Millis)
      → Alive rank fuel limit d q e
      → Post ⊥ (Alive rank fuel limit d q) (arm_for_timer p e id after)
  unfolding arm_for_timer schedule_for
  arm_for_timer-Alive e id after h =
      Post-bind ⊥ (Alive rank fuel limit d q) (Alive rank fuel limit d q) (cancel_for p e id)
        (λ e'. schedule_for p e' id after) (cancel_for-Alive e id h)
        (λ e' h'. to_scheduler p only rank fuel limit d q _ _ h')

  cancel_on_report-Alive :
      (e : Engine S N) (ev : Event)
      → Alive rank fuel limit d q e
      → Post ⊥ (Alive rank fuel limit d q) (cancel_on_report p e ev)
  unfolding cancel_on_report cancel_reverted_for_timers
  cancel_on_report-Alive e (Event.state_reported dev st) h =
      Post-for_each ⊥ (Alive rank fuel limit d q) (λ _. Unit) (cancel_for p)
        (λ e' id h' _. cancel_for-Alive e' id h') e (reverted p e) h (any (reverted p e))
  cancel_on_report-Alive e _ h = h

  dispatch_each :
      (e : Engine S N) (cs : List Command)
      → Alive rank fuel limit d q e
      → Post ⊥ (Alive rank fuel limit d q) (for_each (λ e' c. dispatch_at p fuel e' c 1 d) e cs)
  dispatch_each e cs h =
      Post-for_each ⊥ (Alive rank fuel limit d q) (λ _. Unit) (λ e' c. dispatch_at p fuel e' c 1 d)
        (λ e' c h' _. dispatch_at-Alive p only rank fuel limit d q e' c 1 h') e cs h (any cs)

  perform-Alive :
      (e : Engine S N) (asked : Asked)
      → Alive rank fuel limit d q e
      → Post ⊥ (Alive rank fuel limit d q) (perform p fuel e asked d)
  unfolding perform
  perform-Alive e asked h =
      Post-bind ⊥ (Alive rank fuel limit d q) (Alive rank fuel limit d q) _ _
        (Post-for_each ⊥ (Alive rank fuel limit d q) (λ _. Unit) _
          (λ e' (t : RuleId × Millis) h' _. arm_for_timer-Alive e' t.0 t.1 h') e asked.arm_for h
          (any asked.arm_for))
        (λ e' h'. dispatch_each e' asked.commands h')

  fold_state-Alive :
      (e : Engine S N) (ev : Event)
      → Alive rank fuel limit d q e
      → Alive rank fuel limit d q (fold_state p e ev)
  unfolding fold_state fan_state_folded
  fold_state-Alive e (Event.state_reported dev st) h = h
  fold_state-Alive e _ h = h

  react-Alive :
      (e : Engine S N) (ev : Event)
      → Alive rank fuel limit d q e
      → Post ⊥ (Alive rank fuel limit d q) (react p fuel e ev d)
  unfolding react
  react-Alive e ev h =
      Post-bind ⊥ (Alive rank fuel limit d q) (Alive rank fuel limit d q)
        (cancel_on_report p (fold_state p e ev) ev) _
        (cancel_on_report-Alive (fold_state p e ev) ev (fold_state-Alive e ev h))
        (λ e' h'. perform-Alive _ _ h')

  refan-Alive :
      (e : Engine S N) (dev : DeviceId) (want : Desired)
      → Alive rank fuel limit d q e
      → Alive rank fuel limit d q (refan p e dev want)
  unfolding refan fan_state_folded
  refan-Alive e dev want h = elim (Option-cases (State.get e.state dev (desired_kind want))) [
    | inl absent ↦ rw (absent, refan) h
    | inr (st, found) ↦ rw (found, refan) h
  ]

  request_change-Alive :
      (e : Engine S N) (dev : DeviceId) (want : Desired)
      → Alive rank fuel limit d q e
      → Post ⊥ (Alive rank fuel limit d q) (request_change p fuel e dev want d)
  unfolding request_change
  request_change-Alive e dev want h = elim (Option-cases (command_for_requested_change dev want)) [
    | inl nothing ↦ rw (nothing, request_change) (refan-Alive e dev want h)
    | inr (c, asked) ↦
        rw (asked, request_change)
          (Post-bind ⊥ (Alive rank fuel limit d q) (Alive rank fuel limit d q)
            (dispatch_at p fuel e c 1 d) (λ e'. some (refan p e' dev want))
            (dispatch_at-Alive p only rank fuel limit d q e c 1 h)
            (λ e' h'. refan-Alive e' dev want h'))
  ]

module _ {S N : Type 0} (p : Ports S N) (only : OnlySchedulerTimes p) (rank : SceneId → ℕ)
    (fuel limit : ℕ) (q : List (Event × ℕ)) where
  fire_rule-Alive :
      (e : Engine S N) (r : Option Rule)
      → Alive rank fuel limit 0 q e
      → Post ⊥ (Alive rank fuel limit 0 q) (fire_rule p fuel e r)
  unfolding fire_rule
  fire_rule-Alive e none h = h
  fire_rule-Alive e (some r) h = elim (Bool-cases (predicate_holds r.trigger e.state)) [
    | inl holds ↦ rw (holds, fire_rule) (dispatch_each p only rank fuel limit 0 q e r.commands h)
    | inr fails ↦ rw (fails, fire_rule) h
  ]

  fire_elapsed_for-Alive :
      (e : Engine S N) (key : TimerKey)
      → Alive rank fuel limit 0 q e
      → Post ⊥ (Alive rank fuel limit 0 q) (fire_elapsed_for p fuel e key)
  unfolding fire_elapsed_for
  fire_elapsed_for-Alive e key h = elim (Option-cases (owner e.pending_for key)) [
    | inl stale ↦ rw (stale, fire_elapsed_for) h
    | inr (id, found) ↦ rw (found, fire_elapsed_for) (fire_rule-Alive _ _ h)
  ]

  timer_event-Alive :
      (e : Engine S N) (key : TimerKey)
      → Alive rank fuel limit 0 q e
      → Post ⊥ (Alive rank fuel limit 0 q) (timer_event p fuel e key 0)
  unfolding timer_event
  timer_event-Alive e key h = elim (Option-cases (lookup key e.retries)) [
    | inr (pending, found) ↦
        rw (found, timer_event) (dispatch_at-Alive p only rank fuel limit 0 q _ _ _ h)
    | inl absent ↦
        rw (absent, timer_event)
          (elim (Bool-cases (starts_with key for_key_prefix)) [
            | inl ours ↦ rw ours (fire_elapsed_for-Alive e key h)
            | inr other ↦
                rw other (react-Alive p only rank fuel limit 0 q e (Event.timer_elapsed key) h)
          ])
  ]

  handle_event-Alive :
      (e : Engine S N) (ev : Event) (d : ℕ)
      → (is_timer ev ≡ true → d ≡ 0)
      → Alive rank fuel limit d q e
      → Post ⊥ (Alive rank fuel limit d q) (handle_event p fuel e ev d)
  unfolding handle_event
  handle_event-Alive e (Event.timer_elapsed key) d z h =
      rw (z refl) (timer_event-Alive e key (rw (z refl) at h))
  handle_event-Alive e (Event.requested_change dev want) d z h =
      request_change-Alive p only rank fuel limit d q e dev want h
  handle_event-Alive e (Event.requested_scene scene) d z h =
      dispatch_at-Alive p only rank fuel limit d q e (Command.activate_scene scene) 1 h
  handle_event-Alive e ev d z h = react-Alive p only rank fuel limit d q e ev h

  pub process-Alive :
      (e : Engine S N) (ev : Event) (d : ℕ)
      → (is_timer ev ≡ true → d ≡ 0)
      → Alive rank fuel limit d q e
      → Post ⊥ (Alive rank fuel limit d q) (process p fuel e ev d)
  unfolding process
  process-Alive e ev d z h = elim (Bool-cases (ltb e.max_cascade_depth d)) [
    | inl deep ↦
        rw (deep, process) (Alive-notify rank fuel limit d q e (Notice.cascade_dropped ev d) h)
    | inr fine ↦
        rw (fine, process)
          (handle_event-Alive (notify e (Notice.event_received ev d)) ev d z
            (Alive-notify rank fuel limit d q e (Notice.event_received ev d) h))
  ]
