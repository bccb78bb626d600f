-- ===== src/Engine/Sustain/Timely.antt =====
-- The `for:` timers of src/engine.rs from event to event.
use domiform.Base.{
  ℕ, ◌≡◌, inl, inr, true, false, List, [], ◌++◌, arith, nat_eq, some, All, refl, sym, All-map,
  Option, subst,
}
use domiform.Base.Assoc.{lookup}
use domiform.Base.Text.{text_eq}
use domiform.State
use domiform.State.{StateStore}
use domiform.Model.Capability.{RuleId, Millis, kind, DeviceId, CapabilityState}
use domiform.Model.Command.{Event}
use domiform.Rule.Rules.{Rule}
use domiform.Rule.Trigger.{matches, predicate_holds, is_edge, Trigger}
use domiform.Rule.Edges.{edge_iff}
use domiform.Engine.Parts.{Engine, Ports, Notice, PendingFor, notify, fan_state_folded}
use domiform.Engine.Post.{Post, Post-bind, Post-map}
use domiform.Engine.Loop.{
  react, perform, consider_all, fold_state, cancel_on_report, ask_nothing, prior_of,
}
use domiform.Engine.Timers.{find_rule, sustained, reverted, cancel_reverted_for_timers}
use domiform.Engine.Host.{Call, Run}
use domiform.Engine.Steady.Sends.{IsSteady}
use domiform.Engine.Steady.React.{consider_all-notices, consider_all-arm_for, steady-perform}
use domiform.Engine.Steady.Events.{IsKept, is_report, kept-run}
use domiform.Engine.Sustain.Pending.{IsFit, Only-insert, Only-reverted}
use domiform.Engine.Sustain.Held.{Held, Held-IsSteady, Held-cancel}

-- Rules that fit, and a pending timer only for a rule whose predicate holds of the store.
pub record IsTimely {S N : Type 0} (e : Engine S N) : Type 0 where
  pub fit : IsFit e.rules
  pub holding :
      (id : RuleId) (pending : PendingFor)
      → lookup id e.pending_for ≡ some pending
      → sustained e.rules e.state id ≡ true

-- A rule with a `for:` that a report fires has a predicate that holds of the folded store.
fired-sustained :
    (rules : List Rule) (s : StateStore) (d : DeviceId) (state : CapabilityState) (r : Rule)
    (after : Millis)
    → ((after' : Millis)
        → r.for_duration ≡ some after'
        → (is_edge r.trigger ≡ true) × (find_rule rules r.id ≡ some r))
    → matches r.trigger (Event.state_reported d state) (State.get s d (kind state)) ≡ true
    → r.for_duration ≡ some after
    → sustained rules (State.set s d state) r.id ≡ true
fired-sustained rules s d state r after fit matched lasting =
    let (edge, found) = fit after lasting in
    let holds : predicate_holds r.trigger (State.set s d state) ≡ true =
      ground (arith, edge_iff r.trigger s d state edge, matched) in
    rw (found, sustained) holds

no_edge :
    (t : Trigger) (ev : Event) (prior : Option CapabilityState)
    → is_report ev ≡ false
    → is_edge t ≡ true
    → matches t ev prior ≡ true
    → ⊥
unfolding matches
no_edge t ev prior other edge matched = ground arith

module _ {S N : Type 0} where
  Held→IsTimely :
      (rules : List Rule) (s : StateStore) (e : Engine S N)
      → IsFit rules
      → Held rules s [] e
      → IsTimely e
  Held→IsTimely rules s e fit h = record {
    fit = subst IsFit (sym h.ruled) fit;
    holding = λ id pending found. elim (h.only id pending found) [
      | inl q ↦ rw (h.ruled, h.stored) q
      | inr m ↦ elim m [ ]
    ];
  }

  Timely→Held : (e : Engine S N) → IsTimely e → Held e.rules e.state [] e
  Timely→Held e h = record {
    ruled = refl;
    stored = refl;
    only = λ id pending found. inl (h.holding id pending found);
  }

  Timely-IsSteady : IsSteady (λ (e : Engine S N). IsTimely e)
  unfolding notify
  Timely-IsSteady = record {
    noticed = λ e n quiet h. record { fit = h.fit; holding = h.holding };
    queued = λ e q h. record { fit = h.fit; holding = h.holding };
    adapted = λ e as' h. record { fit = h.fit; holding = h.holding };
    mirrored = λ e nbs h. record { fit = h.fit; holding = h.holding };
    timed = λ e t h. record { fit = h.fit; holding = h.holding };
    retrying = λ e n a c h lt. record { fit = h.fit; holding = h.holding };
    settled = λ e k h. record { fit = h.fit; holding = h.holding };
    released = λ e id h.
        Held→IsTimely e.rules e.state _ h.fit
          ((Held-IsSteady e.rules e.state []).released e id (Timely→Held e h));
  }

module _ {S N : Type 0} (p : Ports S N) (fuel : ℕ) where
  -- The rules run on the folded store, with the reverted timers cancelled.
  Timely-perform :
      (e : Engine S N) (d : DeviceId) (state : CapabilityState) (n : ℕ) (e' : Engine S N)
      → IsTimely e
      → Held e.rules (State.set e.state d state) [] e'
      → (let asked =
            consider_all e'.state
              (Event.state_reported d state)
              (State.get e.state d (kind state))
              ask_nothing
              e'.rules in
          Post Unit IsTimely
            (perform p fuel (record e' { trace = asked.notices ++ e'.trace }) asked n))
  Timely-perform e d state n e' h h' =
      let rules = e.rules in
      let s = State.set e.state d state in
      let ev = Event.state_reported d state in
      let prior = State.get e.state d (kind state) in
      let fits : All
          (λ (r : Rule).
            matches r.trigger ev prior ≡ true
            → (after : Millis) → r.for_duration ≡ some after
            → sustained rules s r.id ≡ true)
          rules =
        All-map _ _ rules
          (λ r fit matched after lasting.
            fired-sustained rules e.state d state r after fit matched lasting)
          h.fit in
      Post-map Unit (Held rules s []) IsTimely _ (λ e2 h2. Held→IsTimely rules s e2 h.fit h2)
        (steady-perform p (Held rules s []) (Held-IsSteady rules s [])
          (λ id. sustained rules s id ≡ true)
          (λ e2 m id h2 c. record {
            ruled = h2.ruled;
            stored = h2.stored;
            only = Only-insert (sustained rules s) id _ [] e2.pending_for c h2.only;
          })
          fuel e' _ n h' (consider_all-notices e'.state ev prior e'.rules ask_nothing tt)
          (consider_all-arm_for (λ id. sustained rules s id ≡ true) e'.state ev prior e'.rules
            ask_nothing (subst (All _) (sym h'.ruled) fits) tt))

  Timely-report :
      (e : Engine S N) (d : DeviceId) (state : CapabilityState) (n : ℕ)
      → IsTimely e
      → Post Unit IsTimely (
          react p fuel
            (notify e (Notice.event_received (Event.state_reported d state) n))
            (Event.state_reported d state)
            n)
  unfolding react cancel_on_report cancel_reverted_for_timers fold_state prior_of fan_state_folded
      notify reverted
  Timely-report e d state n h =
      let rules = e.rules in
      let s = State.set e.state d state in
      Post-bind Unit IsTimely (Held rules s []) _ _
        (Held-cancel p rules s _ _ (record {
          ruled = refl;
          stored = refl;
          only = Only-reverted (sustained rules s) e.pending_for;
        }))
        (λ e' h'. Timely-perform e d state n e' h h')

  Timely-other :
      (e : Engine S N) (ev : Event) (n : ℕ) (prior : Option CapabilityState)
      → is_report ev ≡ false
      → IsTimely e
      → (let asked = consider_all e.state ev prior ask_nothing e.rules in
          Post Unit IsTimely
            (perform p fuel (record e { trace = asked.notices ++ e.trace }) asked n))
  Timely-other e ev n prior other h =
      steady-perform p IsTimely Timely-IsSteady (λ _. ⊥) (λ e2 m id h2 c. absurd c) fuel e _ n h
        (consider_all-notices e.state ev prior e.rules ask_nothing tt)
        (consider_all-arm_for (λ _. ⊥) e.state ev prior e.rules ask_nothing
          (All-map _ _ e.rules
            (λ (r : Rule) fit matched after lasting.
              no_edge r.trigger ev prior other (fit after lasting).0 matched)
            h.fit)
          tt)

  Timely-received :
      (e : Engine S N) (ev : Event) (n : ℕ)
      → IsTimely e
      → IsTimely (notify e (Notice.event_received ev n))
  unfolding notify
  Timely-received e ev n h = record { fit = h.fit; holding = h.holding }

  Timely-react :
      (e : Engine S N) (ev : Event) (n : ℕ)
      → IsTimely e
      → Post Unit IsTimely (react p fuel (notify e (Notice.event_received ev n)) ev n)
  unfolding react cancel_on_report fold_state notify
  Timely-react e (Event.state_reported d state) n h = Timely-report e d state n h
  Timely-react e ev n h =
      Timely-other (notify e (Notice.event_received ev n)) ev n (prior_of p _ ev) refl
        (Timely-received e ev n h)

  Timely-IsKept : IsKept p IsTimely fuel
  Timely-IsKept = record {
    steady = Timely-IsSteady;
    received = λ e ev d other h. Timely-received e ev d h;
    reacts = Timely-react;
  }

-- Through any run of calls of the host, a `for:` timer is pending only for a rule whose trigger's
-- predicate holds of the current store: a report that reverts the predicate cancels the timer. The rules
-- fit (each with a `for:` has an edge trigger and an id of its own) and no timer is astray at the start.
pub run-IsTimely :
    {S N : Type 0} (p : Ports S N) (fuel : ℕ) (e e' : Engine S N) (cs : List Call)
    → Run p fuel e cs e'
    → IsTimely e
    → IsTimely e'
run-IsTimely p fuel e e' cs run h = kept-run p IsTimely fuel (Timely-IsKept p fuel) run h
