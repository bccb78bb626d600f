-- ===== src/Engine/Steady/React.antt =====
-- What the rules of src/engine.rs ask for, and invariants while it is done.
use domiform.Base.{
  ℕ, ◌≡◌, true, false, Option, none, some, List, [], ◌∷◌, ◌++◌, ◌+◌, refl, arith, nat_eq,
  Bool-cases, Option-cases, inl, inr, All, All-append,
}
use domiform.Base.Assoc.{insert, lookup}
use domiform.Base.Text.{text_eq}
use domiform.State.{StateStore}
use domiform.Model.Capability.{CapabilityState, RuleId, Millis}
use domiform.Model.Command.{Event}
use domiform.Rule.Truth.{is_true}
use domiform.Rule.Trigger.{matches}
use domiform.Rule.Condition.{eval}
use domiform.Rule.Rules.{Rule}
use domiform.Engine.Parts.{Engine, Ports, Notice, notify}
use domiform.Engine.Dispatch.{u64, dispatch_at}
use domiform.Engine.Timers.{for_key, cancel_for, schedule_for, arm_for_timer}
use domiform.Engine.Loop.{Asked, ask_fired, consider, consider_all, perform}
use domiform.Engine.Post.{any, Post, Post-bind, Post-for_each, is_receipt}
use domiform.Engine.Steady.Sends.{IsSteady, steady-dispatch_at, steady-to_scheduler}

consider-notices :
    (s : StateStore) (ev : Event) (prior : Option CapabilityState) (asked : Asked) (r : Rule)
    → All (λ n. is_receipt n ≡ false) asked.notices
    → All (λ n. is_receipt n ≡ false) (consider s ev prior asked r).notices
unfolding consider ask_fired
consider-notices s ev prior asked r h = ground arith

ask_fired-arm_for :
    (C : RuleId → Type 0) (asked : Asked) (r : Rule) (o : Option Millis)
    → ((after : Millis) → o ≡ some after → C r.id)
    → All (λ (t : RuleId × Millis). C t.0) asked.arm_for
    → All (λ (t : RuleId × Millis). C t.0) (ask_fired asked r o).arm_for
unfolding ask_fired
ask_fired-arm_for C asked r none fits h = h
ask_fired-arm_for C asked r (some after) fits h =
    All-append (λ (t : RuleId × Millis). C t.0) asked.arm_for ((r.id, after) ∷ []) h
      (fits after refl, tt)

consider-arm_for :
    (C : RuleId → Type 0) (s : StateStore) (ev : Event) (prior : Option CapabilityState)
    (asked : Asked) (r : Rule)
    → (matches r.trigger ev prior ≡ true → (after : Millis) → r.for_duration ≡ some after → C r.id)
    → All (λ (t : RuleId × Millis). C t.0) asked.arm_for
    → All (λ (t : RuleId × Millis). C t.0) (consider s ev prior asked r).arm_for
unfolding consider
consider-arm_for C s ev prior asked r fits h = elim (Bool-cases (matches r.trigger ev prior)) [
  | inr other ↦ rw (other, consider) h
  | inl matched ↦ elim (Bool-cases (is_true (eval r.condition s))) [
    | inr held ↦ rw (matched, consider, held) h
    | inl fired ↦
        rw (matched, consider, fired) (ask_fired-arm_for C _ r r.for_duration (fits matched) h)
  ]
]

-- The rules log no receipts.
pub consider_all-notices :
    (s : StateStore) (ev : Event) (prior : Option CapabilityState) (rules : List Rule)
    (asked : Asked)
    → All (λ n. is_receipt n ≡ false) asked.notices
    → All (λ n. is_receipt n ≡ false) (consider_all s ev prior asked rules).notices
unfolding consider_all
consider_all-notices s ev prior [] asked h = h
consider_all-notices s ev prior (r ∷ rules) asked h =
    consider_all-notices s ev prior rules _ (consider-notices s ev prior asked r h)

-- Only a rule that the event matches arms its timer.
pub consider_all-arm_for :
    (C : RuleId → Type 0) (s : StateStore) (ev : Event) (prior : Option CapabilityState)
    (rules : List Rule) (asked : Asked)
    → All
        (λ (r : Rule).
          matches r.trigger ev prior ≡ true
          → (after : Millis) → r.for_duration ≡ some after
          → C r.id)
        rules
    → All (λ (t : RuleId × Millis). C t.0) asked.arm_for
    → All (λ (t : RuleId × Millis). C t.0) (consider_all s ev prior asked rules).arm_for
unfolding consider_all
consider_all-arm_for C s ev prior [] asked fits h = h
consider_all-arm_for C s ev prior (r ∷ rules) asked fits h =
    consider_all-arm_for C s ev prior rules _ fits.1
      (consider-arm_for C s ev prior asked r fits.0 h)

module _ {S N : Type 0} (p : Ports S N) (P : Engine S N → Type 0) (st : IsSteady P) where
  steady-notices :
      (ns : List Notice) (e : Engine S N)
      → All (λ n. is_receipt n ≡ false) ns
      → P e
      → P (record e { trace = ns ++ e.trace })
  unfolding notify
  steady-notices [] e quiet h = h
  steady-notices (n ∷ ns) e quiet h = st.noticed _ n quiet.0 (steady-notices ns e quiet.1 h)

  pub steady-cancel_for : (e : Engine S N) (id : RuleId) → P e → Post Unit P (cancel_for p e id)
  unfolding cancel_for
  steady-cancel_for e id h = elim (Option-cases (lookup id e.pending_for)) [
    | inl absent ↦ rw (absent, cancel_for) h
    | inr (prev, found) ↦
        rw (found, cancel_for) (steady-to_scheduler p P st _ _ (st.released e id h))
  ]

  module _ (C : RuleId → Type 0)
      (arms : (e : Engine S N) (n : ℕ) (id : RuleId)
        → P e
        → C id
        → P (record e {
          for_counter = n;
          pending_for = insert id (record { key = for_key n }) e.pending_for;
        })) where
    steady-arm_for_timer :
        (e : Engine S N) (id : RuleId) (after : Millis)
        → P e
        → C id
        → Post Unit P (arm_for_timer p e id after)
    unfolding arm_for_timer schedule_for
    steady-arm_for_timer e id after h c =
        Post-bind Unit P P (cancel_for p e id) (λ e'. schedule_for p e' id after)
          (steady-cancel_for e id h)
          (λ e' h'. steady-to_scheduler p P st _ _ (arms e' (u64 (e'.for_counter + 1)) id h' c))

    -- What the rules ask for keeps the invariant.
    pub steady-perform :
        (fuel : ℕ) (e : Engine S N) (asked : Asked) (d : ℕ)
        → P e
        → All (λ n. is_receipt n ≡ false) asked.notices
        → All (λ (t : RuleId × Millis). C t.0) asked.arm_for
        → Post Unit P (perform p fuel (record e { trace = asked.notices ++ e.trace }) asked d)
    unfolding perform
    steady-perform fuel e asked d h quiet fits =
        Post-bind Unit P P _ _
          (Post-for_each Unit P (λ (t : RuleId × Millis). C t.0) _
            (λ e' (t : RuleId × Millis) h' c. steady-arm_for_timer e' t.0 t.1 h' c) _ asked.arm_for
            (steady-notices asked.notices e quiet h) fits)
          (λ e' h'.
            Post-for_each Unit P (λ _. Unit {0}) (λ e2 c. dispatch_at p fuel e2 c 1 d)
              (λ e2 c h2 _. steady-dispatch_at p P st fuel e2 c 1 d h2) e' asked.commands h'
              (any asked.commands))
