-- ===== src/Engine/Retries.antt =====
-- The attempts of the pending retries of src/engine.rs.
use domiform.Base.{ℕ, List, ◌≡◌, ◌≤◌, ◌<◌, ◌+◌, ◌^◌, arith, nat_eq, some}
use domiform.Base.Assoc.{lookup, lookup-insert, lookup-remove}
use domiform.Base.Text.{text_eq}
use domiform.Model.Command.{TimerKey, Event}
use domiform.Engine.Host.{Call, Run}
use domiform.Engine.Loop.{fold_state}
use domiform.Engine.Steady.Events.{IsKept, kept-run}
use domiform.Engine.Steady.Plain.{plain-IsKept}
use domiform.Engine.Parts.{Engine, Ports, Notice, PendingRetry, notify, fan_state_folded}
use domiform.Engine.Dispatch.{u32, retry_key}
use domiform.Engine.Steady.Sends.{IsSteady}

-- No command waits for an attempt past the last one that the policy grants.
pub record IsBounded {S N : Type 0} (e : Engine S N) : Type 0 where
  pub fits : e.retry.max_attempts < 2 ^ 32
  pub bounded :
      (key : TimerKey) (pending : PendingRetry)
      → lookup key e.retries ≡ some pending
      → pending.attempt ≤ e.retry.max_attempts

module _ {S N : Type 0} where
  IsBounded-IsSteady : IsSteady (λ (e : Engine S N). IsBounded e)
  unfolding notify
  IsBounded-IsSteady = record {
    noticed = λ e n quiet h. record { fits = h.fits; bounded = h.bounded };
    queued = λ e q h. record { fits = h.fits; bounded = h.bounded };
    adapted = λ e as' h. record { fits = h.fits; bounded = h.bounded };
    mirrored = λ e nbs h. record { fits = h.fits; bounded = h.bounded };
    timed = λ e t h. record { fits = h.fits; bounded = h.bounded };
    retrying = λ e n a c h lt. record {
      fits = h.fits;
      bounded = λ key pending found. ground (
        arith,
        lookup-insert (retry_key n) key (record { command = c; attempt = u32 (a + 1) }) e.retries,
        h.bounded key pending,
        h.fits,
        lt,
      );
    };
    settled = λ e k h. record {
      fits = h.fits;
      bounded =
          λ key pending found. ground (arith, lookup-remove k key e.retries, h.bounded key pending);
    };
    released = λ e id h. record { fits = h.fits; bounded = h.bounded };
  }

module _ {S N : Type 0} (p : Ports S N) (fuel : ℕ) where
  fold_state-IsBounded :
      (e : Engine S N) (ev : Event) (d : ℕ)
      → IsBounded e
      → IsBounded (fold_state p (notify e (Notice.event_received ev d)) ev)
  unfolding fold_state fan_state_folded notify
  fold_state-IsBounded e (Event.state_reported device state) d h = record {
    fits = h.fits;
    bounded = h.bounded;
  }
  fold_state-IsBounded e _ d h = record { fits = h.fits; bounded = h.bounded }

  IsBounded-IsKept : IsKept p IsBounded fuel
  unfolding notify
  IsBounded-IsKept =
      plain-IsKept p IsBounded fuel IsBounded-IsSteady
        (λ e ev d other h. record { fits = h.fits; bounded = h.bounded }) fold_state-IsBounded
        (λ e n id h. record { fits = h.fits; bounded = h.bounded })

-- Through any run of calls of the host, every pending retry stays within the attempts that the policy
-- grants, if the policy's bound fits u32 and no retry is past it at the start.
pub run-IsBounded :
    {S N : Type 0} (p : Ports S N) (fuel : ℕ) (e e' : Engine S N) (cs : List Call)
    → Run p fuel e cs e'
    → IsBounded e
    → IsBounded e'
run-IsBounded p fuel e e' cs run h = kept-run p IsBounded fuel (IsBounded-IsKept p fuel) run h
