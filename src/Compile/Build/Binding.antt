-- ===== src/Compile/Build/Binding.antt =====
-- The binding of devices to slots in `build_engine_full` of src/compile/mod.rs.
use domiform.Base.{
  ℕ, suc, ◌+◌, ◌<◌, ◌≡◌, refl, sym, ap, ◌∙◌, some, List, [], ◌∷◌, ◌>>=◌, arith, length, get_elem?,
  All, All-map, subst, nat_eq, nat_beq_iff, zero, Bool, false, true, ◌&&◌, nat_beq, ◌⊎◌, inl, inr,
  some_injective,
}
use domiform.Base.Assoc.{lookup, lookup-insert, lookup-insert_same}
use domiform.Model.Capability.{AdapterIdx, DeviceId}
use domiform.Engine.Parts.{Engine, Adapter, bind_device}
use domiform.Compile.Lowering.{DeviceDef}
use domiform.Compile.Plugins.{AdapterDef}
use domiform.Compile.Build.Engine.{bind_devices, no_slot}
use domiform.Compile.Build.Slots.{IsSlot, AreSlots}
use domiform.Compile.Resolve.Lints.{is_northbound}

-- Devices whose ids count up.
abbrev pub Placed : ℕ → List DeviceDef → Type 0
Placed i [] = Unit
Placed i (d ∷ ds) = (d.id ≡ i) × Placed (suc i) ds

pub Placed-from :
    (ds : List DeviceDef) (i : ℕ)
    → ((k : ℕ) (d : DeviceDef) → get_elem? ds k ≡ some d → d.id ≡ i + k)
    → Placed i ds
Placed-from [] i h = tt
Placed-from (d ∷ ds) i h = (
  omega (arith, h 0 d refl),
  Placed-from ds (suc i) λ k e found. omega (arith, h (suc k) e found),
)

pub Placed-below :
    (ds : List DeviceDef) (i : ℕ) → Placed i ds → All (λ (d : DeviceDef). d.id < i + length ds) ds
Placed-below [] i h = tt
Placed-below (d ∷ ds) i h = (
  omega (arith, h.0),
  All-map _ _ ds (λ e below. omega (arith, below)) (Placed-below ds (suc i) h.1),
)

pub get_elem?-lt :
    {A : Type 0} (xs : List A) (i : ℕ) (a : A) → get_elem? xs i ≡ some a → i < length xs
get_elem?-lt [] i a found = cc
get_elem?-lt (x ∷ xs) zero a found = omega arith
get_elem?-lt (x ∷ xs) (suc i) a found = omega (arith, get_elem?-lt xs i a found)

module _ (Float Value S N : Type 0) (devices : List DeviceDef) where
  AreSlots-get_elem? :
      (built : List (Adapter S)) (adapters : List (AdapterDef Value S N)) (slots : List AdapterIdx)
      (i j k : ℕ)
      → j ≡ i + k
      → AreSlots Float Value S N devices built i adapters slots
      → k < length adapters
      → (adapter : AdapterDef Value S N) × (slot : AdapterIdx) × (get_elem? adapters k
          ≡ some adapter)
        × (get_elem? slots k ≡ some slot)
        × IsSlot Float Value S N devices built j adapter slot
  AreSlots-get_elem? built [] [] i j k at h below = elim below [ ]
  AreSlots-get_elem? built (a ∷ as') (s ∷ ss) i j zero at h below =
      let here : i ≡ j = omega (arith, at) in
      (a, s, refl, refl, subst (λ x. IsSlot Float Value S N devices built x a s) here h.0)
  AreSlots-get_elem? built (a ∷ as') (s ∷ ss) i j (suc k) at h below =
      AreSlots-get_elem? built as' ss (suc i) j k (omega (arith, at)) h.1 (omega (arith, below))
  AreSlots-get_elem? built [] (s ∷ ss) i j k at h below = elim h [ ]
  AreSlots-get_elem? built (a ∷ as') [] i j k at h below = elim h [ ]

  -- The adapter of a device dispatches.
  abbrev pub IsSouthbound : List (AdapterDef Value S N) → DeviceDef → Type 0
  IsSouthbound adapters d =
      (adapter : AdapterDef Value S N) × (get_elem? adapters d.adapter ≡ some adapter)
      × (is_northbound adapter.plugin ≡ false)

  -- Without debug assertions, or with the devices of all these on adapters that dispatch.
  abbrev pub Passes : Bool → List (AdapterDef Value S N) → List DeviceDef → Type 0
  Passes debug adapters ds = (debug ≡ false) ⊎ All (IsSouthbound adapters) ds

  assertion_holds :
      (debug : Bool) (built : List (Adapter S)) (adapters : List (AdapterDef Value S N))
      (d : DeviceDef) (ds : List DeviceDef) (adapter : AdapterDef Value S N) (slot : AdapterIdx)
      → length built < no_slot
      → Passes debug adapters (d ∷ ds)
      → get_elem? adapters d.adapter ≡ some adapter
      → IsSlot Float Value S N devices built d.adapter adapter slot
      → ((debug && nat_beq slot no_slot) ≡ false) × Passes debug adapters ds
  assertion_holds debug built adapters d ds adapter slot few (inl release) found is_slot =
      (rw release refl, inl release)
  assertion_holds debug built adapters d ds adapter slot few (inr south) found
        (inl (_, p, plugged, there)) =
      let low = get_elem?-lt built slot _ there in (ground (arith, low, few), inr south.1)
  assertion_holds debug built adapters d ds adapter slot few (inr south) found (inr (north, at)) =
      let (other, found', southbound') = south.0 in
      let same : other ≡ adapter = some_injective (sym found' ∙ found) in
      let clash : false ≡ true =
        sym southbound' ∙ ap (λ (a : AdapterDef Value S N). is_northbound a.plugin) same ∙ north in
      cc

  -- Each of the devices is routed to its adapter's slot.
  abbrev pub AreRouted :
      List (Adapter S) → List (AdapterDef Value S N) → Engine S N → List DeviceDef → Type 0
  AreRouted built adapters e ds =
      All
        (λ (d : DeviceDef).
          (adapter : AdapterDef Value S N) × (slot : AdapterIdx) × (get_elem? adapters d.adapter
            ≡ some adapter)
          × (lookup d.id e.device_to_adapter ≡ some slot)
          × IsSlot Float Value S N devices built d.adapter adapter slot)
        ds

  -- What binding leaves: the rest of the engine, and the routes of lower ids.
  pub record IsBound (i : ℕ) (e e' : Engine S N) : Type 0 where
    pub ruled : e'.rules ≡ e.rules
    pub stored : e'.state ≡ e.state
    pub queued : e'.queue ≡ e.queue
    pub pending : e'.pending_for ≡ e.pending_for
    pub retried : e'.retries ≡ e.retries
    pub adapted : e'.adapters ≡ e.adapters
    pub lower :
        (id : DeviceId) → id < i → lookup id e'.device_to_adapter ≡ lookup id e.device_to_adapter

  pub bind-routes :
      (debug : Bool) (adapters : List (AdapterDef Value S N)) (slots : List AdapterIdx)
      (built : List (Adapter S)) (ds : List DeviceDef) (i : ℕ) (e : Engine S N)
      → length built < no_slot
      → Passes debug adapters ds
      → AreSlots Float Value S N devices built 0 adapters slots
      → Placed i ds
      → All (λ (d : DeviceDef). d.adapter < length adapters) ds
      → (e' : Engine S N) × (bind_devices Float Value S N debug ds slots e ≡ some e')
        × IsBound i e e'
        × AreRouted built adapters e' ds
  unfolding bind_devices
  bind-routes debug adapters slots built [] i e few passes are placed known = (
    e,
    refl,
    record {
      ruled = refl;
      stored = refl;
      queued = refl;
      pending = refl;
      retried = refl;
      adapted = refl;
      lower = λ id below. refl;
    },
    tt,
  )
  bind-routes debug adapters slots built (d ∷ ds) i e few passes are placed known =
      let (adapter, slot, at_adapter, at_slot, is_slot) =
        AreSlots-get_elem? built adapters slots 0 d.adapter d.adapter (omega arith) are known.0 in
      let (open_guard, passes') =
        assertion_holds debug built adapters d ds adapter slot few passes at_adapter is_slot in
      let e1 = bind_device e d.id slot in
      let (e', done, b, routed) =
        bind-routes debug adapters slots built ds (suc i) e1 few passes' are placed.1 known.1 in
      (
        e',
        rw (bind_devices, at_slot, ◌>>=◌, open_guard) done,
        record {
          ruled = b.ruled;
          stored = b.stored;
          queued = b.queued;
          pending = b.pending;
          retried = b.retried;
          adapted = b.adapted;
          lower = λ id below.
              b.lower id (omega (arith, below))
              ∙ ground (
                arith,
                lookup-insert d.id id slot e.device_to_adapter,
                nat_beq_iff d.id id,
                placed.0,
                below,
              );
        },
        (
          (
            adapter,
            slot,
            at_adapter,
            b.lower d.id (omega (arith, placed.0))
                ∙ lookup-insert_same d.id slot e.device_to_adapter,
            is_slot,
          ),
          routed,
        ),
      )
