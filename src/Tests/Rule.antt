-- ===== src/Tests/Rule.antt =====
-- Tests of the model of src/rule.rs.
use domiform.Base.{◌≡◌, ◌≢◌, ◌↔◌, ◌&&◌, not, refl, true, false, Bool, none, some, arith, nat_eq}
use domiform.Base.Int.{pos}
use domiform.State
use domiform.State.{StateStore, empty, get-set, get-empty}
use domiform.Model.Capability.{CapabilityKind, CapabilityState, DeviceId, kind}
use domiform.Model.Command.{Event}
use domiform.Rule.Truth.{CmpOp, Truth, true_, false_, unknown, is_true}
use domiform.Rule.Trigger.{Trigger, above, matches, watches, predicate_holds}
use domiform.Rule.Edges.{edge_iff}
use domiform.Rule.Condition.{
  Condition, bool_equals, compare, conjunction, disjunction, negation, nil, cons, eval,
}
use domiform.Rule.Kleene.{
  Extends, eval_stable, AllTrue, AnyFalse, conjunction_lem, negate_all, de_morgan,
}

-- The climate rule: warmer than 25 degrees.
abbrev hot : Trigger
hot = Trigger.crosses 4 CapabilityKind.temperature (pos 2500) above

abbrev warm : CapabilityState
warm = CapabilityState.temperature (pos 2600)

abbrev cool : StateStore
cool = State.set empty 4 (CapabilityState.temperature (pos 2100))

edge_iff_example : matches hot (Event.state_reported 4 warm) (State.get cool 4 (kind warm)) ≡ (
    watches hot 4 (kind warm)
    && predicate_holds hot (State.set cool 4 warm)
    && not (predicate_holds hot cool))
edge_iff_example = edge_iff hot cool 4 warm refl

crossing_fires :
    matches hot (Event.state_reported 4 warm) (State.get cool 4 CapabilityKind.temperature) ≡ true
unfolding matches State.set State.get domiform.Base.Assoc.lookup kind domiform.Base.Assoc.insert
    domiform.Model.Capability.as_i64
crossing_fires = refl

-- Quiet hours, 22:00 to 06:00, and a sun that has never been reported.
abbrev late : Condition
late = compare 99 CapabilityKind.time_of_day CmpOp.ge (pos 1320)

abbrev dark : Condition
dark = bool_equals 99 CapabilityKind.sun_up false

abbrev noon : StateStore
noon = State.set empty 99 (CapabilityState.time_of_day 720)

false_beats_unknown : eval (conjunction (cons dark (cons late nil))) noon ≡ false_
unfolding eval State.set State.get domiform.Base.Assoc.lookup kind domiform.Rule.Truth.and
    domiform.Base.Assoc.insert domiform.Model.Capability.as_i64 domiform.Rule.Truth.from_bool
    domiform.Rule.Truth.test
false_beats_unknown = refl

unknown_propagates : eval (negation dark) noon ≡ unknown
unfolding eval State.set State.get domiform.Base.Assoc.lookup kind domiform.Rule.Truth.negate
    domiform.Base.Assoc.insert
unknown_propagates = refl

abbrev sunny : StateStore
sunny = State.set noon 99 (CapabilityState.sun_up true)

unsettled : eval (conjunction (cons dark (cons late nil))) noon ≢ unknown
unsettled e = cc (e, false_beats_unknown)

sunny-Extends-noon : Extends noon sunny
unfolding State.set State.get domiform.Base.Assoc.lookup kind domiform.Base.Assoc.insert
sunny-Extends-noon = record { keeps = λ d k v h. ground arith }

eval_stable_example :
    eval (conjunction (cons dark (cons late nil))) sunny
    ≡ eval (conjunction (cons dark (cons late nil))) noon
eval_stable_example =
    eval_stable (conjunction (cons dark (cons late nil))) noon sunny sunny-Extends-noon unsettled

conjunction_lem_example :
    ((eval (conjunction (cons dark nil)) noon ≡ true_) ↔ AllTrue (cons dark nil) noon)
    × ((eval (conjunction (cons dark nil)) noon ≡ false_) ↔ AnyFalse (cons dark nil) noon)
conjunction_lem_example = conjunction_lem (cons dark nil) noon

de_morgan_example :
    eval (negation (conjunction (cons dark (cons late nil)))) noon
    ≡ eval (disjunction (negate_all (cons dark (cons late nil)))) noon
de_morgan_example = de_morgan (cons dark (cons late nil)) noon
