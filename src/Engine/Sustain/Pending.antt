-- ===== src/Engine/Sustain/Pending.antt =====
-- Which rules have a pending `for:` timer in src/engine.rs, as timers come and go.
use domiform.Base.{
  ◌≡◌, ◌⊎◌, Bool, true, not, List, [], ◌∷◌, arith, nat_eq, nat_beq_iff, some, none, map, filter, In,
  All,
}
use domiform.Base.Assoc.{Assoc, lookup, insert, remove, lookup-insert, lookup-remove}
use domiform.Base.Text.{text_eq}
use domiform.Model.Capability.{RuleId, Millis}
use domiform.Rule.Rules.{Rule}
use domiform.Rule.Trigger.{is_edge}
use domiform.Engine.Parts.{PendingFor}
use domiform.Engine.Timers.{find_rule}

-- As the compiler makes them: a rule with a `for:` has an edge trigger, and its id finds it.
abbrev pub IsFit : List Rule → Type 0
IsFit rules =
    All
      (λ (r : Rule).
        (after : Millis)
        → r.for_duration ≡ some after
        → (is_edge r.trigger ≡ true) × (find_rule rules r.id ≡ some r))
      rules

-- The pending rules are among those of which `f` holds and those in `ids`.
abbrev pub Only : (RuleId → Bool) → List RuleId → Assoc RuleId PendingFor → Type 0
Only f ids m =
    (id : RuleId) (pending : PendingFor) → lookup id m ≡ some pending → (f id ≡ true) ⊎ In id ids

module _ (f : RuleId → Bool) where
  pub Only-remove :
      (id : RuleId) (ids : List RuleId) (m : Assoc RuleId PendingFor)
      → Only f ids m
      → Only f ids (remove id m)
  Only-remove id ids m h j pending found =
      ground (arith, h j pending, lookup-remove id j m, nat_beq_iff id j)

  pub Only-drop :
      (id : RuleId) (ids : List RuleId) (m : Assoc RuleId PendingFor)
      → Only f (id ∷ ids) m
      → Only f ids (remove id m)
  Only-drop id ids m h j pending found =
      ground (arith, h j pending, lookup-remove id j m, nat_beq_iff id j)

  pub Only-absent :
      (id : RuleId) (ids : List RuleId) (m : Assoc RuleId PendingFor)
      → lookup id m ≡ none
      → Only f (id ∷ ids) m
      → Only f ids m
  Only-absent id ids m absent h j pending found = ground (arith, h j pending, absent)

  pub Only-insert :
      (id : RuleId) (v : PendingFor) (ids : List RuleId) (m : Assoc RuleId PendingFor)
      → f id ≡ true
      → Only f ids m
      → Only f ids (insert id v m)
  Only-insert id v ids m holds h j pending found =
      ground (arith, h j pending, lookup-insert id j v m, nat_beq_iff id j)

  pub Only-reverted :
      (m : Assoc RuleId PendingFor)
      → Only f (filter (λ id. not (f id)) (map (λ (t : RuleId × PendingFor). t.0) m)) m
  unfolding lookup
  Only-reverted [] id pending found = ground arith
  Only-reverted ((j, v) ∷ m) id pending found =
      ground (arith, Only-reverted m id pending, nat_beq_iff j id)
