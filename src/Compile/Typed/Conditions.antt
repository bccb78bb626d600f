-- ===== src/Compile/Typed/Conditions.antt =====
-- `condition` of src/compile/lower.rs emits conditions that the configuration supports.
use domiform.Base.{
  subst, ℕ, zero, suc, ◌<◌, ◌≡◌, refl, Option, none, some, List, [], ◌∷◌, inl, inr, Option-cases,
  All, All-map, arith,
}
use domiform.Base.Text.{Text, bytes, text_eq}
use domiform.Model.Capability.{is_bool}
use domiform.Rule.Truth.{CmpOp}
use domiform.Rule.Condition.{
  Condition, nil, cons, negation, conjunction, disjunction, compare, color_equals,
}
use domiform.Compile.Ast.{Yaml}
use domiform.Compile.Lowering.{Scope, Lowering, entry_of}
use domiform.Compile.Conditions.{
  sun_up_condition, switch_condition, occupancy_condition, compare_condition, color_condition,
  time_condition, leaf_condition, lower_items, condition_list, condition_of, condition_within, join,
  condition,
}
use domiform.Compile.Ensures.{
  Ensures, Held, Ensures-pure, Ensures-bind, Ensures-if, Ensures-fail, Ensures-expect, Ensures-lift,
  Ensures-attempt, Ensures-weaken,
}
use domiform.Compile.Typed.Defs.{IsScope, IsTypedCondition, IsTypedConditions}
use domiform.Compile.Typed.References.{
  Ensures-numeric, Ensures-op, Ensures-time, Ensures-color, Ensures-single_entry, Ensures-as_name,
  Ensures-as_flag, Ensures-payload, Ensures-device, Ensures-require,
}

-- The parts of a value are smaller than it.
pub record IsYaml (y : Yaml) : Type 0 where
  pub entry_smaller :
      (v k inner : y.Value) → y.as_mapping v ≡ some ((k, inner) ∷ []) → y.size inner < y.size v
  pub items_smaller :
      (v : y.Value) (items : List y.Value)
      → y.as_sequence v ≡ some items
      → All (λ item. y.size item < y.size v) items

pub entry_of-smaller :
    (y : Yaml) (laws : IsYaml y) (v : y.Value) (verb : Text) (inner : y.Value)
    → entry_of y v ≡ some (verb, inner)
    → y.size inner < y.size v
unfolding entry_of
entry_of-smaller y laws v verb inner h = elim (Option-cases (y.as_mapping v)) [
  | inl p ↦
      let impossible : ◌≡◌ {A = Option (Text × y.Value)} none (some (verb, inner)) =
        rw (entry_of, p) at h in
      cc
  | inr ([], p) ↦
      let impossible : ◌≡◌ {A = Option (Text × y.Value)} none (some (verb, inner)) =
        rw (entry_of, p) at h in
      cc
  | inr ((k, val) ∷ [], p) ↦ elim (Option-cases (y.as_str k)) [
    | inl q ↦
        let impossible : ◌≡◌ {A = Option (Text × y.Value)} none (some (verb, inner)) =
          rw (entry_of, p, q) at h in
        cc
    | inr (s, q) ↦
        let found : some (s, val) ≡ some (verb, inner) = rw (entry_of, p, q) at h in
        let same : val ≡ inner = cc found in
        subst (λ (w : y.Value). y.size w < y.size v) same (laws.entry_smaller v k val p)
  ]
  | inr (e ∷ e' ∷ es, p) ↦
      let impossible : ◌≡◌ {A = Option (Text × y.Value)} none (some (verb, inner)) =
        rw (entry_of, p) at h in
      cc
]

module _ (y : Yaml) (scope : Scope) (context : Text) {H : Type 0} (wf : H → IsScope scope) where
  Ensures-sun_up :
      (v : y.Value) → Ensures H (IsTypedCondition scope) (sun_up_condition y scope context v)
  unfolding sun_up_condition
  Ensures-sun_up v =
      Ensures-bind (Ensures-as_flag y context v _) λ value. Ensures-pure _ λ h. inl (refl, refl)

  Ensures-switch :
      (v : y.Value) → Ensures H (IsTypedCondition scope) (switch_condition y scope context v)
  unfolding switch_condition is_bool
  Ensures-switch v = Ensures-bind (Ensures-payload y context y.switch_is v _) λ s.
      Ensures-bind (Ensures-device scope (λ h. wf h.0) context s.device) λ device.
        Ensures-bind (Ensures-require scope (λ h. wf h.0.0) context device s.device _ _ λ h. h.1)
          λ done. Ensures-pure _ λ h. inr (h.1, refl)

  Ensures-occupancy :
      (v : y.Value) → Ensures H (IsTypedCondition scope) (occupancy_condition y scope context v)
  unfolding occupancy_condition is_bool
  Ensures-occupancy v = Ensures-bind (Ensures-payload y context y.occupancy_is v _) λ o.
      Ensures-bind (Ensures-device scope (λ h. wf h.0) context o.device) λ device.
        Ensures-bind (Ensures-require scope (λ h. wf h.0.0) context device o.device _ _ λ h. h.1)
          λ done. Ensures-pure _ λ h. inr (h.1, refl)

  Ensures-compare :
      (v : y.Value) → Ensures H (IsTypedCondition scope) (compare_condition y scope context v)
  unfolding compare_condition
  Ensures-compare v = Ensures-bind (Ensures-payload y context y.compare v _) λ c.
      Ensures-bind (Ensures-device scope (λ h. wf h.0) context c.device) λ device.
        Ensures-bind (Ensures-numeric context c.capability) λ k.
          Ensures-bind (Ensures-op context c.op) λ op.
            Ensures-bind
              (Ensures-require scope (λ h. wf h.0.0.0.0) context device c.device k _ λ h. h.0.0.1)
              λ done. Ensures-pure (compare device k op c.value) λ h. inr (h.1, h.0.0.1)

  Ensures-color_condition :
      (v : y.Value) → Ensures H (IsTypedCondition scope) (color_condition y scope context v)
  unfolding color_condition
  Ensures-color_condition v = Ensures-bind (Ensures-payload y context y.color_is v _) λ c.
      Ensures-bind (Ensures-device scope (λ h. wf h.0) context c.device) λ device.
        Ensures-bind (Ensures-require scope (λ h. wf h.0.0) context device c.device _ _ λ h. h.1)
          λ done.
            Ensures-bind (Ensures-color y context c.color) λ (r, g, b).
              Ensures-pure (color_equals device r g b) λ h. (h.0.1, h.1.0, h.1.1, h.1.2)

  Ensures-time_condition :
      (op : CmpOp) (node : Text) (v : y.Value)
      → Ensures H (IsTypedCondition scope) (time_condition y scope context op node v)
  unfolding time_condition
  Ensures-time_condition op node v = Ensures-bind (Ensures-as_name y context v _) λ t.
      Ensures-bind (Ensures-time context t)
        λ minute. Ensures-pure _ λ h. inl (refl, refl, minute, refl, h.1)

  Ensures-leaf :
      (verb : Text) (v : y.Value)
      → Ensures H (IsTypedCondition scope) (leaf_condition y scope context verb v)
  unfolding leaf_condition
  Ensures-leaf verb v = Ensures-if _ (Ensures-sun_up v) (
      Ensures-if _ (Ensures-switch v) (
        Ensures-if _ (Ensures-occupancy v) (
          Ensures-if _ (Ensures-compare v) (
            Ensures-if _ (Ensures-color_condition v) (
              Ensures-if _ (Ensures-time_condition CmpOp.ge (bytes "time_after") v) (
                Ensures-if _ (Ensures-time_condition CmpOp.lt (bytes "time_before") v)
                  (Ensures-fail context _ _)))))))

module _ (y : Yaml) (laws : IsYaml y) (scope : Scope) (context : Text) where
  -- What lowering the parts of a node with `fuel` gives.
  module _ (inner : y.Value → Lowering Condition) (fuel : ℕ)
      (lowered : (v : y.Value)
        → Ensures (IsScope scope × (y.size v < fuel)) (IsTypedCondition scope) (inner v)) where
    Ensures-items :
        (items : List y.Value)
        → Ensures
            (IsScope scope × All (λ item. y.size item < fuel) items)
            (λ o. Held o (IsTypedConditions scope))
            (lower_items y scope context inner items)
    unfolding lower_items
    Ensures-items [] = Ensures-pure (some nil) λ h. (nil, refl, tt)
    Ensures-items (item ∷ items) =
        Ensures-bind
          (Ensures-attempt (Ensures-weaken (λ h. (h.0, h.1.0)) (λ c h p. p) (lowered item)))
          λ c.
            Ensures-bind
              (Ensures-weaken (λ h. (h.0.0, h.0.1.1)) (λ cs h p. p) (Ensures-items items))
              λ rest. Ensures-pure (join c rest) λ h.
                let (a, eq, p) = h.0.1 in
                let (as', eqs, ps) = h.1 in rw (eq, eqs) (cons a as', refl, (p, ps))

    Ensures-list :
        (v : y.Value) (node : Text)
        → Ensures
            (IsScope scope × (y.size v < fuel))
            (IsTypedConditions scope)
            (condition_list y scope context inner v node)
    unfolding condition_list
    Ensures-list v node =
        Ensures-bind {P = λ items. All (λ item. y.size item < fuel) items}
          (Ensures-expect context _ _ _ λ items eq h.
            All-map _ _ items (λ item smaller. omega (arith, smaller, h.1))
              (laws.items_smaller v items eq))
          λ items.
            Ensures-bind (Ensures-weaken (λ h. (h.0.0, h.1)) (λ cs h p. p) (Ensures-items items))
              λ out. Ensures-lift λ h. h.1

    Ensures-condition_of :
        (verb : Text) (v : y.Value)
        → Ensures
            (IsScope scope × (y.size v < fuel))
            (IsTypedCondition scope)
            (condition_of y scope context inner verb v)
    unfolding condition_of
    Ensures-condition_of verb v =
        Ensures-if _
          (Ensures-bind (Ensures-list v verb) λ cs. Ensures-pure (conjunction cs) λ h. h.1)
          (Ensures-if _
            (Ensures-bind (Ensures-list v verb) λ cs. Ensures-pure (disjunction cs) λ h. h.1)
            (Ensures-if _ (Ensures-bind (lowered v) λ c. Ensures-pure (negation c) λ h. h.1)
              (Ensures-leaf y scope context (λ h. h.0) verb v)))

  pub Ensures-within :
      (fuel : ℕ) (v : y.Value)
      → Ensures
          (IsScope scope × (y.size v < fuel))
          (IsTypedCondition scope)
          (condition_within y scope context fuel v)
  unfolding condition_within
  Ensures-within zero v = Ensures-lift λ h. elim h.1 [ ]
  Ensures-within (suc fuel) v = Ensures-bind (Ensures-single_entry y context v _) λ (verb, body).
      Ensures-weaken (λ h. (h.0.0, omega (arith, h.0.1, entry_of-smaller y laws v verb body h.1)))
        (λ c h p. p)
        (Ensures-condition_of (condition_within y scope context fuel) fuel (Ensures-within fuel)
          verb body)

  pub Ensures-condition :
      (v : y.Value) → Ensures (IsScope scope) (IsTypedCondition scope) (condition y scope context v)
  unfolding condition
  Ensures-condition v =
      Ensures-weaken (λ h. (h, omega arith)) (λ c h p. p) (Ensures-within (suc (y.size v)) v)
