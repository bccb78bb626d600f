-- ===== src/Adapters/Zwave/Index.antt =====
-- The tables that `ZwaveAdapter::new` of src/adapters/zwavejs.rs builds.
use domiform.Base.{
  ◌≡◌, ◌≢◌, some, List, [], ◌∷◌, arith, refl, nat_eq, pair_eq, inl, inr, All, In, subst, ◌∙◌, Eq,
}
use domiform.Base.Assoc.{Assoc, lookup, insert, lookup-insert, lookup-insert_same}
use domiform.Model.Capability.{DeviceId}
use domiform.Adapters.Zwave.Defs.{Wire, ZwaveClient, DeviceKind, NodeId, EndpointId, index_devices}

abbrev pub Device : Type 0
Device = DeviceId × NodeId × EndpointId × DeviceKind

abbrev address : Device → NodeId × EndpointId
address v = (v.1, v.2)

-- No two devices share an id, or an address.
abbrev pub Apart : List Device → Type 0
Apart [] = Unit
Apart (v ∷ vs) = All (λ o. (o.0 ≢ v.0) × (address o ≢ address v)) vs × Apart vs

kept_elsewhere :
    {K V : Type 0} ⦃e : Eq K⦄ (k j : K) (v : V) (m : Assoc K V)
    → k ≢ j
    → lookup j (insert k v m) ≡ lookup j m
kept_elsewhere ⦃e⦄ k j v m h = ground (arith, lookup-insert k j v m, e.beq_iff k j)

module _ (w : Wire) (c : ZwaveClient w) where
  -- Devices further on in the list leave the others' entries.
  index_kept :
      (vs : List Device)
      (maps : Assoc DeviceId (NodeId × EndpointId × DeviceKind)
        × Assoc (NodeId × EndpointId) DeviceId)
      (v : Device)
      → All (λ o. (o.0 ≢ v.0) × (address o ≢ address v)) vs
      → (lookup v.0 (index_devices w c vs maps).0 ≡ lookup v.0 maps.0)
        × (lookup (address v) (index_devices w c vs maps).1 ≡ lookup (address v) maps.1)
  unfolding index_devices
  index_kept [] maps v h = (refl, refl)
  index_kept ((id, node, endpoint, kind) ∷ vs) (by_id, by_node) v h =
      let (i, a) =
        index_kept vs (insert id (node, endpoint, kind) by_id, insert (node, endpoint) id by_node) v
          h.1 in
      (
        i ∙ kept_elsewhere id v.0 (node, endpoint, kind) by_id h.0.0,
        a ∙ kept_elsewhere (node, endpoint) (address v) id by_node h.0.1,
      )

  -- A device and its address lead to each other.
  abbrev pub Found :
      Device
      → Assoc DeviceId (NodeId × EndpointId × DeviceKind) × Assoc (NodeId × EndpointId) DeviceId
      → Type 0
  Found v maps = (lookup v.0 maps.0 ≡ some (v.1, v.2, v.3)) × (lookup (v.1, v.2) maps.1 ≡ some v.0)

  index_first :
      (vs : List Device) (v : Device) (by_id : Assoc DeviceId (NodeId × EndpointId × DeviceKind))
      (by_node : Assoc (NodeId × EndpointId) DeviceId)
      → All (λ o. (o.0 ≢ v.0) × (address o ≢ address v)) vs
      → Found v
          (index_devices w c vs (insert v.0 (v.1, v.2, v.3) by_id, insert (v.1, v.2) v.0 by_node))
  index_first vs v by_id by_node h =
      let (i, a) =
        index_kept vs (insert v.0 (v.1, v.2, v.3) by_id, insert (v.1, v.2) v.0 by_node) v h in
      (
        i ∙ lookup-insert_same v.0 (v.1, v.2, v.3) by_id,
        a ∙ lookup-insert_same (v.1, v.2) v.0 by_node,
      )

  pub index-Found :
      (vs : List Device)
      (maps : Assoc DeviceId (NodeId × EndpointId × DeviceKind)
        × Assoc (NodeId × EndpointId) DeviceId)
      (v : Device)
      → Apart vs
      → In v vs
      → Found v (index_devices w c vs maps)
  unfolding index_devices
  index-Found [] maps v apart h = elim h [ ]
  index-Found (u ∷ vs) (by_id, by_node) v apart (inl same) =
      subst (λ x. Found x (index_devices w c (u ∷ vs) (by_id, by_node))) same
        (index_first vs u by_id by_node apart.0)
  index-Found (u ∷ vs) (by_id, by_node) v apart (inr later) = index-Found vs _ v apart.1 later
