-- ===== src/Engine/Timers.antt =====
-- The sustained (`for:`) timers of src/engine.rs.
use domiform.Base.{
  ℕ, ◌+◌, Bool, false, not, Option, none, some, List, [], ◌∷◌, ◌++◌, map, filter, find, ◌>>=◌,
  if◌then◌else◌, ◌==◌, nat_eq,
}
use domiform.Base.Assoc.{Assoc, insert, remove, lookup}
use domiform.Base.Text.{decimal, text_eq, text_beq}
use domiform.State.{StateStore}
use domiform.Model.Capability.{RuleId, Millis}
use domiform.Model.Command.{TimerKey, Command}
use domiform.Rule.Trigger.{predicate_holds}
use domiform.Rule.Rules.{Rule}
use domiform.Engine.Parts.{Engine, Ports, PendingFor, for_key_prefix, scheduler_idx, dispatch_to}
use domiform.Engine.Dispatch.{u64, for_each, dispatch_at}

abbrev pub for_key : ℕ → TimerKey
for_key n = for_key_prefix ++ decimal n

-- `rules.iter().find(|r| r.id == id)`
abbrev pub find_rule : List Rule → RuleId → Option Rule
find_rule rules id = find (λ (r : Rule). r.id == id) rules

-- `predicate_holds` of a rule that is there.
abbrev pub sustained : List Rule → StateStore → RuleId → Bool
sustained rules s id = elim (find_rule rules id) [
  | some r ↦ predicate_holds r.trigger s
  | none ↦ false
]

-- `pending_for.iter().find(|(_, p)| &p.key == key)`
abbrev pub owner : Assoc RuleId PendingFor → TimerKey → Option RuleId
owner [] key = none
owner ((id, pending) ∷ m) key =
    let rest = owner m key in if text_beq pending.key key then some id else rest

module _ {S N : Type 0} (p : Ports S N) where
  -- Remove the rule's pending entry and cancel its timer.
  unfoldable pub cancel_for : Engine S N → RuleId → Option (Engine S N)
  cancel_for e rule = elim (lookup rule e.pending_for) [
    | some prev ↦
        dispatch_to p (record e { pending_for = remove rule e.pending_for }) scheduler_idx
          (Command.cancel_timer prev.key)
        >>= λ r. some r.0
    | none ↦ some e
  ]

  unfoldable pub schedule_for : Engine S N → RuleId → Millis → Option (Engine S N)
  schedule_for e rule after =
      let counter = u64 (e.for_counter + 1) in
      let key = for_key counter in
      let pending : PendingFor = record { key = key } in
      dispatch_to p
        (record e { for_counter = counter; pending_for = insert rule pending e.pending_for })
        scheduler_idx (Command.schedule_timer key after)
      >>= λ r. some r.0

  unfoldable pub arm_for_timer : Engine S N → RuleId → Millis → Option (Engine S N)
  arm_for_timer e rule after = cancel_for e rule >>= λ e'. schedule_for e' rule after

  -- The pending rules whose predicate no longer holds, or that are gone.
  unfoldable pub reverted : Engine S N → List RuleId
  reverted e =
      filter (λ id. not (sustained e.rules e.state id))
        (map (λ (entry : RuleId × PendingFor). entry.0) e.pending_for)

  unfoldable pub cancel_reverted_for_timers : Engine S N → Option (Engine S N)
  cancel_reverted_for_timers e = for_each cancel_for e (reverted e)

  -- The rule of an elapsed timer, its entry removed.
  unfoldable pub fire_rule : ℕ → Engine S N → Option Rule → Option (Engine S N)
  fire_rule fuel e none = some e
  fire_rule fuel e (some rule) =
      if predicate_holds rule.trigger e.state
      then for_each (λ e' c. dispatch_at p fuel e' c 1 0) e rule.commands
      else some e

  unfoldable pub fire_elapsed_for : ℕ → Engine S N → TimerKey → Option (Engine S N)
  unfolding fire_rule
  fire_elapsed_for fuel e key = elim (owner e.pending_for key) [
    | none ↦ some e
    | some id ↦
        fire_rule fuel (record e { pending_for = remove id e.pending_for }) (find_rule e.rules id)
  ]
