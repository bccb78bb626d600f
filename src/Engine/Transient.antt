-- ===== src/Engine/Transient.antt =====
-- A transient failure in src/engine.rs: what is kept for the next attempt.
use domiform.Base.{
  ℕ, ◌≡◌, ◌<◌, ◌+◌, ◌%◌, ◌^◌, true, some, List, ◌∷◌, refl, some_injective, arith, nat_eq, ◌>>=◌,
  ltb, ◌≤◌, ◌↔◌, In, ◌==◌, if◌then◌else◌, sym, ◌∙◌,
}
use domiform.Base.Assoc.{
  lookup, insert, remove, lookup-insert, lookup-insert_same, IsMap, insert-IsMap,
}
use domiform.Base.Text.{Text, text_eq}
use domiform.Model.Capability.{Millis}
use domiform.Model.Command.{TimerKey, Command, Event}
use domiform.Adapters.Outcome.{transient, done}
use domiform.Adapters.Scheduler
use domiform.Adapters.Scheduler.{SchedulerAdapter, schedule, tick}
use domiform.Adapters.Scheduler.Tick.{tick_exact}
use domiform.Engine.Loop.{timer_event}
use domiform.Engine.Parts.{
  Engine, Ports, Adapter, scheduler, Notice, PendingRetry, notify, dispatch_to, adapter_dispatch,
  scheduler_idx, backoff,
}
use domiform.Engine.Dispatch.{u32, u64, retry_key, schedule_retry, handle_outcome, dispatch_at}

scheduled :
    (s : SchedulerAdapter) (key : TimerKey) (after now : Millis)
    → lookup key (schedule s key after now).pending ≡ some ((now + after) % 2 ^ 64)
unfolding schedule
scheduled s key after now = lookup-insert_same key ((now + after) % 2 ^ 64) s.pending

module _ {S N : Type 0} (p : Ports S N) where
  scheduler_takes :
      (e : Engine S N) (s : SchedulerAdapter) (rest : List (Adapter S)) (key : TimerKey)
      (t : Millis)
      → e.adapters ≡ scheduler s ∷ rest
      → dispatch_to p e scheduler_idx (Command.schedule_timer key t)
        ≡ some (record e { adapters = scheduler (schedule s key t e.now) ∷ rest }, done)
  unfolding dispatch_to adapter_dispatch Scheduler.dispatch
  scheduler_takes e s rest key t first = rw (first, dispatch_to, ◌>>=◌) refl

  -- The tick of the scheduler that has taken a timer.
  taken_elapses :
      (s : SchedulerAdapter) (key : TimerKey) (after now t : Millis)
      → IsMap s.pending
      → In (Event.timer_elapsed key) (tick (schedule s key after now) t).1
        ↔ ((now + after) % 2 ^ 64 ≤ t)
  unfolding schedule
  taken_elapses s key after now t h =
      let at = (now + after) % 2 ^ 64 in
      let exact =
        (tick_exact (schedule s key after now) t key (insert-IsMap key at s.pending h)).0 in
      let held = scheduled s key after now in
      (
        λ m.
            let (u, found, late) = exact.0 m in
            let same : u ≡ at = some_injective (sym found ∙ held) in omega (arith, same, late),
        λ le. exact.1 (at, held, le),
      )

  -- After a transient failure before the last attempt, the command is kept under the key of the next
  -- number and nothing that waits under another key is lost: neither a retry nor a timer. The scheduler,
  -- where each key is pending at most once, reports that key's timer on exactly the ticks from the end of
  -- the backoff (in u64) on, and the engine answers the timer by dispatching the command with the number of its next
  -- attempt, at depth 0, and forgetting the entry. No event is enqueued, and the other adapters stay as they
  -- are.
  pub transient_waits :
      (e : Engine S N) (c : Command) (reason : Text) (a d : ℕ) (s : SchedulerAdapter)
      (rest : List (Adapter S)) (j : TimerKey) (t : Millis) (fuel later : ℕ)
      → e.adapters ≡ scheduler s ∷ rest
      → IsMap s.pending
      → a < e.retry.max_attempts
      → let key = retry_key (u64 (e.retry_counter + 1)) in
        let wake = (e.now + backoff e.retry a) % 2 ^ 64 in
        (e' : Engine S N) × (s' : SchedulerAdapter) × (handle_outcome p e (transient reason) c a d
          ≡ some e')
        × (e'.adapters ≡ scheduler s' ∷ rest)
        × (lookup j e'.retries ≡ (
            if key == j
            then some (record { command = c; attempt = u32 (a + 1) })
            else lookup j e.retries))
        × (lookup j s'.pending ≡ (if key == j then some wake else lookup j s.pending))
        × (In (Event.timer_elapsed key) (tick s' t).1 ↔ (wake ≤ t))
        × (timer_event p fuel e' key later
            ≡ dispatch_at p fuel (record e' { retries = remove key e'.retries }) c (u32 (a + 1)) 0)
        × (e'.queue ≡ e.queue)
  unfolding handle_outcome schedule_retry notify timer_event schedule
  transient_waits e c reason a d s rest j t fuel later first unique more =
      let key = retry_key (u64 (e.retry_counter + 1)) in
      let delay = backoff e.retry a in
      let pending : PendingRetry = record { command = c; attempt = u32 (a + 1) } in
      let before : Engine S N = record e {
        retry_counter = u64 (e.retry_counter + 1);
        retries = insert key pending e.retries;
        trace =
            Notice.retry_scheduled c (u32 (a + 1)) delay
            ∷ Notice.dispatch_failed c reason true a
            ∷ e.trace;
      } in
      let open_guard : ltb a e.retry.max_attempts ≡ true = ground arith in
      let kept : lookup key (insert key pending e.retries) ≡ some pending =
        lookup-insert_same key pending e.retries in
      (
        record before { adapters = scheduler (schedule s key delay e.now) ∷ rest },
        schedule s key delay e.now,
        rw (open_guard, handle_outcome, scheduler_takes before s rest key delay first, ◌>>=◌) refl,
        refl,
        lookup-insert key j pending e.retries,
        lookup-insert key j ((e.now + delay) % 2 ^ 64) s.pending,
        taken_elapses s key delay e.now t unique,
        rw (timer_event, kept) refl,
        refl,
      )
