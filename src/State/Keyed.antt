-- ===== src/State/Keyed.antt =====
-- The capabilities of the states that src/state.rs stores.
use domiform.Base.{◌≡◌, some, arith}
use domiform.State.Defs.{StateStore, empty, set, get, get-set, get-empty}
use domiform.Model.Capability.{CapabilityKind, CapabilityState, DeviceId, kind, kind_beq_iff}

pub record IsKeyed (s : StateStore) : Type 0 where
  pub keyed :
      (d : DeviceId) (k : CapabilityKind) (v : CapabilityState) → get s d k ≡ some v → kind v ≡ k

pub empty-IsKeyed : IsKeyed empty
empty-IsKeyed = record { keyed = λ d k v h. cc (get-empty d k) }

-- In a store that holds under each capability only states of that capability, that stays so when a state
-- is set.
pub set-IsKeyed :
    {s : StateStore} (d : DeviceId) (state : CapabilityState) → IsKeyed s → IsKeyed (set s d state)
set-IsKeyed {s} d state h = record {
  keyed =
      λ e k v q. ground (arith, get-set s d e k state, h.keyed e k v, kind_beq_iff (kind state) k);
}
