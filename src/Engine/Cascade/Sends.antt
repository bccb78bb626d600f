-- ===== src/Engine/Cascade/Sends.antt =====
-- The parts of `dispatch_at` of src/engine.rs, and live engines.
use domiform.Base.{
  ℕ, zero, suc, ◌+◌, ◌≤◌, ◌<◌, ◌≡◌, true, false, some, List, [], ◌∷◌, ◌++◌, All, length, get_elem?,
  set, arith, nat_eq, refl, append_assoc, All-append, length-set, get_elem?-some, ◌>>=◌,
  Option-cases, inl, inr, All-map, ltb, Bool-cases, >>=-eq-some,
}
use domiform.Base.Assoc.{lookup}
use domiform.Base.Text.{Text}
use domiform.Model.Capability.{SceneId}
use domiform.Model.Command.{Command, Event, target_device}
use domiform.Adapters.Outcome.{DispatchOutcome, ok, transient, permanent}
use domiform.Engine.Parts.{
  Engine, Ports, Adapter, Notice, notify, enqueue, enqueue_all, dispatch_to, scheduler_idx,
}
use domiform.Engine.Dispatch.{
  u32, give_up, schedule_retry, handle_outcome, target, no_adapter, dispatch_device, enqueue_ok,
  dispatch_scheduler, dispatch_at,
}
use domiform.Engine.Post.{Post, Post-bind, Steps, Post-dispatch}
use domiform.Engine.Cascade.Live.{
  is_timer, IsQuiet, OnlySchedulerTimes, height, height-resolve, is_scheduler, HeadIsScheduler,
  Produced, Alive, adapter_answers,
}

HeadIsScheduler-set :
    {S : Type 0} (as' : List (Adapter S)) (i : ℕ) (a a' : Adapter S)
    → get_elem? as' i ≡ some a
    → is_scheduler a' ≡ is_scheduler a
    → HeadIsScheduler as'
    → HeadIsScheduler (set as' i a')
HeadIsScheduler-set [] i a a' g k h = h
HeadIsScheduler-set (b ∷ as') zero a a' g k h = ground arith
HeadIsScheduler-set (b ∷ as') (suc i) a a' g k h = h

HeadIsScheduler-length :
    {S : Type 0} (as' : List (Adapter S)) → HeadIsScheduler as' → 0 < length as'
HeadIsScheduler-length [] h = absurd h
HeadIsScheduler-length (a ∷ as') h = omega arith

module _ {S N : Type 0} (rank : SceneId → ℕ) (fuel limit d : ℕ) (q : List (Event × ℕ)) where
  pub Alive-notify :
      (e : Engine S N) (n : Notice)
      → Alive rank fuel limit d q e
      → Alive rank fuel limit d q (notify e n)
  unfolding notify
  Alive-notify e n h = h

  pub Alive-enqueue :
      (e : Engine S N) (ev : Event)
      → is_timer ev ≡ false
      → Alive rank fuel limit d q e
      → Alive rank fuel limit d q (enqueue e ev (u32 (d + 1)))
  unfolding enqueue
  Alive-enqueue e ev quiet h = record {
    first = h.first;
    bound = h.bound;
    ranked = h.ranked;
    shallow = h.shallow;
    room = h.room;
    capped = h.capped;
    fresh = h.fresh ++ (ev, u32 (d + 1)) ∷ [];
    queued = rw h.queued (append_assoc q h.fresh ((ev, u32 (d + 1)) ∷ []));
    produced =
        All-append (Produced (u32 (d + 1))) h.fresh ((ev, u32 (d + 1)) ∷ []) h.produced
          ((quiet, refl), tt);
  }

  Alive-enqueue_all :
      (evs : List Event) (e : Engine S N)
      → All (λ ev. is_timer ev ≡ false) evs
      → Alive rank fuel limit d q e
      → Alive rank fuel limit d q (enqueue_all e evs (u32 (d + 1)))
  unfolding enqueue_all enqueue
  Alive-enqueue_all [] e quiet h = h
  Alive-enqueue_all (ev ∷ evs) e quiet h =
      Alive-enqueue_all evs (enqueue e ev (u32 (d + 1))) quiet.1 (Alive-enqueue e ev quiet.0 h)

  Alive-give_up :
      (e : Engine S N) (c : Command) (reason : Text) (a : ℕ)
      → Alive rank fuel limit d q e
      → Alive rank fuel limit d q (give_up e c reason a d)
  unfolding give_up
  Alive-give_up e c reason a h =
      Alive-enqueue (notify e (Notice.command_failed c reason a)) (Event.command_failed c reason a)
        refl (Alive-notify e (Notice.command_failed c reason a) h)

module _ {S N : Type 0} (p : Ports S N) (only : OnlySchedulerTimes p) (rank : SceneId → ℕ)
    (fuel limit d : ℕ) (q : List (Event × ℕ)) where
  abbrev Answer : Engine S N × DispatchOutcome → Type 0
  Answer r = Alive rank fuel limit d q r.0 × IsQuiet r.1

  pub dispatch_to-Alive :
      (e : Engine S N) (i : ℕ) (c : Command)
      → i < length e.adapters
      → Alive rank fuel limit d q e
      → Post ⊥
          (λ (r : Engine S N × DispatchOutcome). Alive rank fuel limit d q r.0 × IsQuiet r.1)
          (dispatch_to p e i c)
  unfolding dispatch_to
  dispatch_to-Alive e i c lt h =
      let (a, found) = get_elem?-some e.adapters i lt in
      let (a', o, answered, same, quiet) = adapter_answers p only a c e.now in
      rw (found, ◌>>=◌, answered)
        (
          record {
            first = HeadIsScheduler-set e.adapters i a a' found same h.first;
            bound = λ dev j b. omega (arith, h.bound dev j b, length-set e.adapters i a');
            ranked = h.ranked;
            shallow = h.shallow;
            room = h.room;
            capped = h.capped;
            fresh = h.fresh;
            queued = h.queued;
            produced = h.produced;
          },
          quiet,
        )

  -- A command for the scheduler, its answer dropped.
  pub to_scheduler :
      (e : Engine S N) (c : Command)
      → Alive rank fuel limit d q e
      → Post ⊥ (Alive rank fuel limit d q) (dispatch_to p e scheduler_idx c >>= λ r. some r.0)
  to_scheduler e c h =
      Post-bind ⊥ (Alive rank fuel limit d q) Answer (dispatch_to p e scheduler_idx c)
        (λ r. some r.0)
        (dispatch_to-Alive e scheduler_idx c (HeadIsScheduler-length e.adapters h.first) h)
        (λ r k. k.0)

  schedule_retry-Alive :
      (e : Engine S N) (c : Command) (a : ℕ)
      → Alive rank fuel limit d q e
      → Post ⊥ (Alive rank fuel limit d q) (schedule_retry p e c a)
  unfolding schedule_retry notify
  schedule_retry-Alive e c a h = to_scheduler _ _ h

  handle_outcome-Alive :
      (e : Engine S N) (o : DispatchOutcome) (c : Command) (a : ℕ)
      → IsQuiet o
      → Alive rank fuel limit d q e
      → Post ⊥ (Alive rank fuel limit d q) (handle_outcome p e o c a d)
  unfolding handle_outcome
  handle_outcome-Alive e (ok evs) c a quiet h = Alive-enqueue_all rank fuel limit d q evs e quiet h
  handle_outcome-Alive e (transient reason) c a quiet h =
      let noticed = notify e (Notice.dispatch_failed c reason true a) in
      let alive = Alive-notify rank fuel limit d q e (Notice.dispatch_failed c reason true a) h in
      elim (Bool-cases (ltb a e.retry.max_attempts)) [
        | inl more ↦ rw (more, handle_outcome) (schedule_retry-Alive noticed c a alive)
        | inr last ↦
            rw (last, handle_outcome) (Alive-give_up rank fuel limit d q noticed c reason a alive)
      ]
  handle_outcome-Alive e (permanent reason) c a quiet h =
      Alive-give_up rank fuel limit d q (notify e (Notice.dispatch_failed c reason false a)) c
        reason a (Alive-notify rank fuel limit d q e (Notice.dispatch_failed c reason false a) h)

  target_bound :
      (e : Engine S N) (c : Command) (i : ℕ)
      → Alive rank fuel limit d q e
      → target p e c ≡ some i
      → i < length e.adapters
  unfolding target
  target_bound e c i h found =
      let (dev, _, there) =
        >>=-eq-some (target_device c) (λ device. lookup device e.device_to_adapter) found in
      h.bound dev i there

  dispatch_device-Alive :
      (e : Engine S N) (c : Command) (a : ℕ)
      → Alive rank fuel limit d q e
      → Post ⊥ (Alive rank fuel limit d q) (dispatch_device p e c a d)
  unfolding dispatch_device
  dispatch_device-Alive e c a h = elim (Option-cases (target p e c)) [
    | inl unbound ↦ rw (unbound, dispatch_device) (handle_outcome-Alive e (no_adapter p) c a tt h)
    | inr (i, found) ↦
        rw (found, dispatch_device)
          (Post-bind ⊥ (Alive rank fuel limit d q) Answer (dispatch_to p e i c)
            (λ r. handle_outcome p r.0 r.1 c a d)
            (dispatch_to-Alive e i c (target_bound e c i h found) h)
            (λ r k. handle_outcome-Alive r.0 r.1 c a k.1 k.0))
  ]

  enqueue_ok-Alive :
      (e : Engine S N) (o : DispatchOutcome)
      → IsQuiet o
      → Alive rank fuel limit d q e
      → Alive rank fuel limit d q (enqueue_ok p e o d)
  enqueue_ok-Alive e (ok evs) quiet h = Alive-enqueue_all rank fuel limit d q evs e quiet h
  enqueue_ok-Alive e (transient reason) quiet h = h
  enqueue_ok-Alive e (permanent reason) quiet h = h

  dispatch_scheduler-Alive :
      (e : Engine S N) (c : Command)
      → Alive rank fuel limit d q e
      → Post ⊥ (Alive rank fuel limit d q) (dispatch_scheduler p e c d)
  unfolding dispatch_scheduler
  dispatch_scheduler-Alive e c h =
      Post-bind ⊥ (Alive rank fuel limit d q) Answer (dispatch_to p e scheduler_idx c)
        (λ r. some (enqueue_ok p r.0 r.1 d))
        (dispatch_to-Alive e scheduler_idx c (HeadIsScheduler-length e.adapters h.first) h)
        (λ r k. enqueue_ok-Alive r.0 r.1 k.1 k.0)

  height_lt : (e : Engine S N) (c : Command) → Alive rank fuel limit d q e → height rank c < fuel
  height_lt e (Command.activate_scene scene) h = h.shallow scene
  height_lt e _ h = h.room

  dispatch-Steps : Steps p ⊥ (Alive rank fuel limit d q) (λ f c. height rank c < f) d
  dispatch-Steps = record {
    noticed = λ e n _ h. Alive-notify rank fuel limit d q e n h;
    scheduled = dispatch_scheduler-Alive;
    sent = dispatch_device-Alive;
    deep = λ c lt. elim lt [ ];
    resolved = λ f s c lt. rw (height-resolve rank s c) lt;
    member = λ f scene e cmds h lt found.
        All-map (λ c. height rank c ≤ rank scene) (λ c. height rank c < f) cmds
          (λ c le. omega arith) (h.ranked scene cmds found);
  }

  -- Every dispatch returns, and keeps the engine live.
  pub dispatch_at-Alive :
      (e : Engine S N) (c : Command) (a : ℕ)
      → Alive rank fuel limit d q e
      → Post ⊥ (Alive rank fuel limit d q) (dispatch_at p fuel e c a d)
  dispatch_at-Alive e c a h =
      Post-dispatch p ⊥ (Alive rank fuel limit d q) (λ f c'. height rank c' < f) d dispatch-Steps
        fuel e c a h (height_lt e c h)
