-- ===== src/Engine/Steady/Plain.antt =====
-- Invariants of src/engine.rs that do not depend on which timers are armed.
use domiform.Base.{ℕ, ◌≡◌, false, nat_eq}
use domiform.Base.Assoc.{insert}
use domiform.Model.Capability.{RuleId}
use domiform.Model.Command.{Event}
use domiform.Engine.Parts.{Engine, Ports, Notice, notify}
use domiform.Engine.Timers.{for_key, cancel_for, reverted, cancel_reverted_for_timers}
use domiform.Engine.Loop.{react, fold_state, cancel_on_report, ask_nothing}
use domiform.Engine.Post.{any, Post, Post-bind, Post-for_each}
use domiform.Engine.Steady.Sends.{IsSteady}
use domiform.Engine.Steady.React.{consider_all-notices, steady-cancel_for, steady-perform}
use domiform.Engine.Steady.Events.{IsKept, is_report}

module _ {S N : Type 0} (p : Ports S N) (P : Engine S N → Type 0) (fuel : ℕ) (st : IsSteady P)
    (received : (e : Engine S N) (ev : Event) (d : ℕ)
      → is_report ev ≡ false
      → P e
      → P (notify e (Notice.event_received ev d)))
    (folds : (e : Engine S N) (ev : Event) (d : ℕ)
      → P e
      → P (fold_state p (notify e (Notice.event_received ev d)) ev))
    (arms : (e : Engine S N) (n : ℕ) (id : RuleId)
      → P e
      → P (record e {
        for_counter = n;
        pending_for = insert id (record { key = for_key n }) e.pending_for;
      })) where
  plain-cancel : (e : Engine S N) (ev : Event) → P e → Post Unit P (cancel_on_report p e ev)
  unfolding cancel_on_report cancel_reverted_for_timers
  plain-cancel e (Event.state_reported _ _) h =
      Post-for_each Unit P (λ _. Unit {0}) (cancel_for p)
        (λ e' id h' _. steady-cancel_for p P st e' id h') e (reverted p e) h (any (reverted p e))
  plain-cancel e _ h = h

  plain-react :
      (e : Engine S N) (ev : Event) (d : ℕ)
      → P e
      → Post Unit P (react p fuel (notify e (Notice.event_received ev d)) ev d)
  unfolding react
  plain-react e ev d h = Post-bind Unit P P _ _ (plain-cancel _ ev (folds e ev d h)) (λ e' h'.
      steady-perform p P st (λ _. Unit {0}) (λ e2 n id h2 _. arms e2 n id h2) fuel e' _ d h'
        (consider_all-notices e'.state ev _ e'.rules ask_nothing tt) (any _))

  pub plain-IsKept : IsKept p P fuel
  plain-IsKept = record { steady = st; received = received; reacts = plain-react }
