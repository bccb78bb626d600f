-- ===== src/Engine/Dispatch.antt =====
-- `Engine::dispatch_at` of src/engine.rs and what it calls. `none` is a panic, or a recursion into
-- scenes that is deeper than the fuel.
use domiform.Base.{
  ℕ, zero, suc, ◌+◌, ◌%◌, ◌^◌, true, false, Option, none, some, List, [], ◌∷◌, ◌++◌, ◌>>=◌, ltb,
  if◌then◌else◌, length, nat_eq,
}
use domiform.Base.Assoc.{insert, lookup}
use domiform.Base.Text.{Text, bytes, decimal, text_eq}
use domiform.Model.Capability.{AdapterIdx}
use domiform.Model.Command.{TimerKey, Command, Event, target_device}
use domiform.Adapters.Outcome.{DispatchOutcome, ok, transient, permanent}
use domiform.Engine.Parts.{
  Engine, Ports, Notice, PendingRetry, backoff, retry_key_prefix, scheduler_idx, notify, enqueue,
  enqueue_all, dispatch_to,
}
use domiform.Engine.Intent.{resolve_implicit_state_command}

abbrev pub u32 : ℕ → ℕ
u32 n = n % 2 ^ 32

abbrev pub u64 : ℕ → ℕ
u64 n = n % 2 ^ 64

abbrev pub retry_key : ℕ → TimerKey
retry_key n = retry_key_prefix ++ decimal n

-- A loop whose body may panic.
unfoldable pub for_each : {A E : Type 0} → (E → A → Option E) → E → List A → Option E
for_each body e [] = some e
for_each body e (x ∷ xs) = body e x >>= λ e'. for_each body e' xs

module _ {S N : Type 0} where
  unfoldable pub give_up : Engine S N → Command → Text → ℕ → ℕ → Engine S N
  give_up e cmd reason attempts depth =
      enqueue (notify e (Notice.command_failed cmd reason attempts))
        (Event.command_failed cmd reason attempts) (u32 (depth + 1))

module _ {S N : Type 0} (p : Ports S N) where
  unfoldable pub schedule_retry : Engine S N → Command → ℕ → Option (Engine S N)
  schedule_retry e cmd failed_attempt =
      let next_attempt = u32 (failed_attempt + 1) in
      let delay = backoff e.retry failed_attempt in
      let counter = u64 (e.retry_counter + 1) in
      let key = retry_key counter in
      let counted = record e { retry_counter = counter } in
      let noticed = notify counted (Notice.retry_scheduled cmd next_attempt delay) in
      let pending : PendingRetry = record { command = cmd; attempt = next_attempt } in
      let stored = record noticed { retries = insert key pending noticed.retries } in
      dispatch_to p stored scheduler_idx (Command.schedule_timer key delay) >>= λ r. some r.0

  unfoldable pub handle_outcome :
      Engine S N → DispatchOutcome → Command → ℕ → ℕ → Option (Engine S N)
  handle_outcome e (ok evs) cmd attempt depth = some (enqueue_all e evs (u32 (depth + 1)))
  handle_outcome e (transient reason) cmd attempt depth =
      let noticed = notify e (Notice.dispatch_failed cmd reason true attempt) in
      if ltb attempt e.retry.max_attempts
      then schedule_retry noticed cmd attempt
      else some (give_up noticed cmd reason attempt depth)
  handle_outcome e (permanent reason) cmd attempt depth =
      let noticed = notify e (Notice.dispatch_failed cmd reason false attempt) in
      some (give_up noticed cmd reason attempt depth)

  -- The adapter that a command's device is bound to.
  unfoldable pub target : Engine S N → Command → Option AdapterIdx
  target e cmd = target_device cmd >>= λ device. lookup device e.device_to_adapter

  abbrev pub no_adapter : DispatchOutcome
  no_adapter = permanent (bytes "no adapter bound for target device")

  -- The end of `dispatch_at`: a command for a device.
  unfoldable pub dispatch_device : Engine S N → Command → ℕ → ℕ → Option (Engine S N)
  dispatch_device e cmd attempt depth = elim (target e cmd) [
    | some idx ↦
        dispatch_to p e idx cmd >>= λ result. handle_outcome result.0 result.1 cmd attempt depth
    | none ↦ handle_outcome e no_adapter cmd attempt depth
  ]

  abbrev pub enqueue_ok : Engine S N → DispatchOutcome → ℕ → Engine S N
  enqueue_ok e (ok evs) depth = enqueue_all e evs (u32 (depth + 1))
  enqueue_ok e _ depth = e

  -- The middle of `dispatch_at`: a command for the scheduler.
  unfoldable pub dispatch_scheduler : Engine S N → Command → ℕ → Option (Engine S N)
  dispatch_scheduler e cmd depth =
      dispatch_to p e scheduler_idx cmd >>= λ result. some (enqueue_ok result.0 result.1 depth)

  -- The command after resolution: `each` dispatches a member of a scene.
  unfoldable pub dispatch_resolved :
      (Engine S N → Command → Option (Engine S N))
      → Engine S N
      → Command
      → ℕ
      → ℕ
      → Option (Engine S N)
  dispatch_resolved each e (Command.activate_scene scene) attempt depth =
      elim (lookup scene e.scenes) [
        | some cmds ↦ for_each each (notify e (Notice.scene_expanded scene (length cmds))) cmds
        | none ↦ some e
      ]
  dispatch_resolved each e (Command.schedule_timer key after) attempt depth =
      dispatch_scheduler e (Command.schedule_timer key after) depth
  dispatch_resolved each e (Command.cancel_timer key) attempt depth =
      dispatch_scheduler e (Command.cancel_timer key) depth
  dispatch_resolved each e cmd attempt depth = dispatch_device e cmd attempt depth

  unfoldable pub dispatch_at : ℕ → Engine S N → Command → ℕ → ℕ → Option (Engine S N)
  dispatch_at zero e cmd attempt depth = none
  dispatch_at (suc fuel) e cmd attempt depth =
      let resolved = resolve_implicit_state_command e.state cmd in
      dispatch_resolved (λ e' c. dispatch_at fuel e' c 1 depth)
        (notify e (Notice.command_dispatched resolved depth)) resolved attempt depth
