-- ===== src/Engine/Replay.antt =====
-- The state store of src/engine.rs and the log of received events.
use domiform.Base.{ℕ, ◌≡◌, false, List, [], ◌∷◌, arith, nat_eq, ap}
use domiform.State
use domiform.State.{StateStore}
use domiform.Model.Command.{Event}
use domiform.Engine.Parts.{Engine, Ports, Notice, notify, fan_state_folded}
use domiform.Engine.Loop.{fold_state}
use domiform.Engine.Host.{Call, Run}
use domiform.Engine.Post.{is_receipt}
use domiform.Engine.Steady.Sends.{IsSteady}
use domiform.Engine.Steady.Plain.{plain-IsKept}
use domiform.Engine.Steady.Events.{IsKept, kept-run}

-- What a notice says of the store.
abbrev pub log_entry : Notice → StateStore → StateStore
log_entry (Notice.event_received (Event.state_reported device state) _) s = State.set s device state
log_entry _ s = s

-- The store after the notices, of which the newest is first.
abbrev pub replay : StateStore → List Notice → StateStore
replay s [] = s
replay s (n ∷ ns) = log_entry n (replay s ns)

log_entry_lem : (n : Notice) (s : StateStore) → is_receipt n ≡ false → log_entry n s ≡ s
log_entry_lem n s h = ground arith

module _ {S N : Type 0} (s0 : StateStore) where
  abbrev IsReplayed : Engine S N → Type 0
  IsReplayed e = e.state ≡ replay s0 e.trace

  replay-IsSteady : IsSteady IsReplayed
  unfolding notify
  replay-IsSteady = record {
    noticed = λ e n quiet h. cc (h, log_entry_lem n (replay s0 e.trace) quiet);
    queued = λ e q h. h;
    adapted = λ e as' h. h;
    mirrored = λ e nbs h. h;
    timed = λ e t h. h;
    retrying = λ e n a c h lt. h;
    settled = λ e k h. h;
    released = λ e id h. h;
  }

  module _ (p : Ports S N) (fuel : ℕ) where
    fold_state-IsReplayed :
        (e : Engine S N) (ev : Event) (d : ℕ)
        → IsReplayed e
        → IsReplayed (fold_state p (notify e (Notice.event_received ev d)) ev)
    unfolding fold_state fan_state_folded notify
    fold_state-IsReplayed e (Event.state_reported device state) d h =
        ap (λ s. State.set s device state) h
    fold_state-IsReplayed e _ d h = h

    replay-IsKept : IsKept p IsReplayed fuel
    unfolding notify
    replay-IsKept =
        plain-IsKept p IsReplayed fuel replay-IsSteady (λ e ev d other h. rw h (ground arith))
          fold_state-IsReplayed (λ e n id h. h)

-- Through any run of calls of the host, the store stays what the event log gives: the reports that were
-- received, folded in their order into the store from before.
pub run-replay :
    {S N : Type 0} (p : Ports S N) (fuel : ℕ) (s0 : StateStore) (e e' : Engine S N) (cs : List Call)
    → Run p fuel e cs e'
    → e.state ≡ replay s0 e.trace
    → e'.state ≡ replay s0 e'.trace
run-replay p fuel s0 e e' cs run h = kept-run p (IsReplayed s0) fuel (replay-IsKept s0 p fuel) run h
