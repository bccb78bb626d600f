-- ===== src/Rule/Edges.antt =====
-- What the edge triggers of src/rule.rs detect.
use domiform.Base.{◌≡◌, true, not, ◌&&◌, arith, nat_beq_iff}
use domiform.State
use domiform.State.{StateStore, get-set}
use domiform.Model.Capability.{CapabilityState, DeviceId, kind, kind_beq_iff}
use domiform.Model.Command.{Event}
use domiform.Rule.Trigger.{Trigger, matches, predicate_holds, watches, is_edge}

-- An edge trigger fires on a report exactly if the report is about the capability that it watches,
-- its predicate did not hold of the store before the report is folded, and holds of the store after.
pub edge_iff :
    (t : Trigger) (s : StateStore) (d : DeviceId) (state : CapabilityState)
    → is_edge t ≡ true
    → matches t (Event.state_reported d state) (State.get s d (kind state)) ≡ (
        watches t d (kind state)
        && predicate_holds t (State.set s d state)
        && not (predicate_holds t s))
unfolding matches predicate_holds State.bool_value State.num_value
edge_iff (Trigger.changed device k to) s d state h = ground (
  arith,
  get-set s d device k state,
  nat_beq_iff device d,
  nat_beq_iff d device,
  kind_beq_iff (kind state) k,
)
edge_iff (Trigger.crosses device k bound dir) s d state h = ground (
  arith,
  get-set s d device k state,
  nat_beq_iff device d,
  nat_beq_iff d device,
  kind_beq_iff (kind state) k,
)
edge_iff _ s d state h = cc
