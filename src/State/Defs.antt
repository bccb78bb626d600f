-- ===== src/State/Defs.antt =====
-- The store of src/state.rs and its accessors. Iteration order is that of the association list, one of
-- the orders that the code's map may have.
use domiform.Base.{
  ◌≡◌, refl, Bool, Option, none, some, List, [], map, ◌>>=◌, if◌then◌else◌, ◌==◌, ◌&&◌, pair_eq,
  nat_eq,
}
use domiform.Base.Int.{ℤ}
use domiform.Base.Assoc.{Assoc, lookup, insert, lookup-insert}
use domiform.Model.Capability.{
  CapabilityKind, CapabilityState, DeviceId, kind, as_bool, as_i64, kind_eq,
}

pub record StateStore : Type 0 where
  pub store : Assoc (DeviceId × CapabilityKind) CapabilityState

-- `StateStore::default`
abbrev pub empty : StateStore
empty = record { store = [] }

unfoldable pub set : StateStore → DeviceId → CapabilityState → StateStore
set s device state = record { store = insert (device, kind state) state s.store }

unfoldable pub get : StateStore → DeviceId → CapabilityKind → Option CapabilityState
get s device k = lookup (device, k) s.store

unfoldable pub bool_value : StateStore → DeviceId → CapabilityKind → Option Bool
bool_value s device k = get s device k >>= as_bool

unfoldable pub num_value : StateStore → DeviceId → CapabilityKind → Option ℤ
num_value s device k = get s device k >>= as_i64

unfoldable pub switch_is : StateStore → DeviceId → Option Bool
unfolding bool_value
switch_is s device = bool_value s device CapabilityKind.switch

unfoldable pub iter : StateStore → List (DeviceId × CapabilityState)
iter s =
    map (λ (entry : (DeviceId × CapabilityKind) × CapabilityState). (entry.0.0, entry.1)) s.store

-- Equality of the keys (device, capability).
abbrev pub same_slot : DeviceId → CapabilityKind → DeviceId → CapabilityKind → Bool
same_slot d j e k = d == e && j == k

-- A read after a write.
pub get-set :
    (s : StateStore) (d e : DeviceId) (k : CapabilityKind) (state : CapabilityState)
    → get (set s d state) e k ≡ (if same_slot d (kind state) e k then some state else get s e k)
unfolding get set
get-set s d e k state = lookup-insert (d, kind state) (e, k) state s.store

pub get-empty : (d : DeviceId) (k : CapabilityKind) → get empty d k ≡ none
unfolding get lookup
get-empty d k = refl
