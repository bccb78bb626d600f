-- ===== src/Engine/Depths.antt =====
-- The causal depth of what a dispatch of src/engine.rs enqueues, however deep its scenes nest.
use domiform.Base.{
  ℕ, ◌+◌, ◌≡◌, some, List, [], ◌∷◌, ◌++◌, All, refl, sym, ltb, nat_eq, Bool-cases, Option-cases,
  inl, inr, get_elem?, append_assoc, append-nil, All-append,
}
use domiform.Base.Text.{Text}
use domiform.Model.Command.{Command, Event}
use domiform.Adapters.Outcome.{DispatchOutcome, ok, transient, permanent}
use domiform.Engine.Parts.{
  Engine, Ports, notify, enqueue, enqueue_all, dispatch_to, adapter_dispatch, scheduler_idx,
}
use domiform.Engine.Dispatch.{
  u32, give_up, schedule_retry, handle_outcome, target, no_adapter, dispatch_device, enqueue_ok,
  dispatch_scheduler, dispatch_at,
}
use domiform.Engine.Post.{any, Post, Post-bind, Post-dispatch, Post-value}
use domiform.Engine.Steady.Sends.{whatever}

-- Entries of the queue that are one hop deeper than `d`.
abbrev pub AreOneDeeper : ℕ → List (Event × ℕ) → Type 0
AreOneDeeper d entries = All (λ (entry : Event × ℕ). entry.1 ≡ u32 (d + 1)) entries

-- The queue `q`, with entries after it that are one hop deeper than `d`.
abbrev pub Deepens : ℕ → List (Event × ℕ) → List (Event × ℕ) → Type 0
Deepens d q q' = (new : List (Event × ℕ)) × (q' ≡ q ++ new) × AreOneDeeper d new

Deepens-snoc :
    (d : ℕ) (q q' : List (Event × ℕ)) (ev : Event)
    → Deepens d q q'
    → Deepens d q (q' ++ (ev, u32 (d + 1)) ∷ [])
Deepens-snoc d q q' ev (new, eq, deep) =
    let entry = (ev, u32 (d + 1)) ∷ [] in
    (
      new ++ entry,
      rw eq (append_assoc q new entry),
      All-append (λ (e : Event × ℕ). e.1 ≡ u32 (d + 1)) new entry deep (refl, tt),
    )

module _ {S N : Type 0} (p : Ports S N) (d : ℕ) (q : List (Event × ℕ)) where
  abbrev InStep : Engine S N → Type 0
  InStep e = Deepens d q e.queue

  abbrev Answered : Engine S N × DispatchOutcome → Type 0
  Answered r = InStep r.0

  enqueue_all-InStep :
      (evs : List Event) (e : Engine S N) → InStep e → InStep (enqueue_all e evs (u32 (d + 1)))
  unfolding enqueue_all
  enqueue_all-InStep [] e h = h
  enqueue_all-InStep (ev ∷ evs) e h = enqueue_all-InStep evs _ (Deepens-snoc d q e.queue ev h)

  give_up-InStep :
      (e : Engine S N) (c : Command) (reason : Text) (a : ℕ)
      → InStep e
      → InStep (give_up e c reason a d)
  unfolding give_up enqueue notify
  give_up-InStep e c reason a h = Deepens-snoc d q e.queue (Event.command_failed c reason a) h

  dispatch_to-InStep :
      (e : Engine S N) (i : ℕ) (c : Command) → InStep e → Post Unit Answered (dispatch_to p e i c)
  unfolding dispatch_to
  dispatch_to-InStep e i c h =
      Post-bind Unit Answered (λ _. Unit) (get_elem? e.adapters i) _ (whatever _)
        (λ a _.
          Post-bind Unit Answered (λ _. Unit) (adapter_dispatch p a c e.now) _ (whatever _)
            (λ r _. h))

  schedule_retry-InStep :
      (e : Engine S N) (c : Command) (a : ℕ) → InStep e → Post Unit InStep (schedule_retry p e c a)
  unfolding schedule_retry notify
  schedule_retry-InStep e c a h =
      Post-bind Unit InStep Answered _ _ (dispatch_to-InStep _ scheduler_idx _ h) (λ r k. k)

  handle_outcome-InStep :
      (e : Engine S N) (o : DispatchOutcome) (c : Command) (a : ℕ)
      → InStep e
      → Post Unit InStep (handle_outcome p e o c a d)
  unfolding handle_outcome notify
  handle_outcome-InStep e (ok evs) c a h = enqueue_all-InStep evs e h
  handle_outcome-InStep e (transient reason) c a h =
      elim (Bool-cases (ltb a e.retry.max_attempts)) [
        | inl more ↦ rw (more, handle_outcome) (schedule_retry-InStep _ c a h)
        | inr last ↦ rw (last, handle_outcome) (give_up-InStep _ c reason a h)
      ]
  handle_outcome-InStep e (permanent reason) c a h = give_up-InStep _ c reason a h

  dispatch_device-InStep :
      (e : Engine S N) (c : Command) (a : ℕ)
      → InStep e
      → Post Unit InStep (dispatch_device p e c a d)
  unfolding dispatch_device
  dispatch_device-InStep e c a h = elim (Option-cases (target p e c)) [
    | inl unbound ↦ rw (unbound, dispatch_device) (handle_outcome-InStep e (no_adapter p) c a h)
    | inr (i, found) ↦
        rw (found, dispatch_device)
          (Post-bind Unit InStep Answered (dispatch_to p e i c) _ (dispatch_to-InStep e i c h)
            (λ r k. handle_outcome-InStep r.0 r.1 c a k))
  ]

  enqueue_ok-InStep :
      (e : Engine S N) (o : DispatchOutcome) → InStep e → InStep (enqueue_ok p e o d)
  enqueue_ok-InStep e (ok evs) h = enqueue_all-InStep evs e h
  enqueue_ok-InStep e (transient _) h = h
  enqueue_ok-InStep e (permanent _) h = h

  dispatch_scheduler-InStep :
      (e : Engine S N) (c : Command) → InStep e → Post Unit InStep (dispatch_scheduler p e c d)
  unfolding dispatch_scheduler
  dispatch_scheduler-InStep e c h =
      Post-bind Unit InStep Answered (dispatch_to p e scheduler_idx c) _
        (dispatch_to-InStep e scheduler_idx c h) (λ r k. enqueue_ok-InStep r.0 r.1 k)

  dispatch_at-InStep :
      (fuel : ℕ) (e : Engine S N) (c : Command) (a : ℕ)
      → InStep e
      → Post Unit InStep (dispatch_at p fuel e c a d)
  unfolding notify
  dispatch_at-InStep fuel e c a h =
      Post-dispatch p Unit InStep (λ _ _. Unit) d
        (record {
          noticed = λ e' n _ h'. h';
          scheduled = dispatch_scheduler-InStep;
          sent = dispatch_device-InStep;
          deep = λ c' _. tt;
          resolved = λ f s c' _. tt;
          member = λ f scene e' cmds _ _ _. any cmds;
        })
        fuel e c a h tt

-- A command that is dispatched to the end leaves the queue as it was and adds events that are all exactly one
-- hop deeper than the command (in u32), whatever scenes it expands to and however deep they nest: the expansion of a
-- scene does not count as a hop.
pub dispatch_at-Deepens :
    {S N : Type 0} (p : Ports S N) (fuel : ℕ) (e e' : Engine S N) (c : Command) (a d : ℕ)
    → dispatch_at p fuel e c a d ≡ some e'
    → Deepens d e.queue e'.queue
dispatch_at-Deepens p fuel e e' c a d done =
    Post-value (λ (x : Engine _ _). Deepens d e.queue x.queue) (dispatch_at p fuel e c a d) e'
      (dispatch_at-InStep p d e.queue fuel e c a ([], sym (append-nil e.queue), tt)) done
