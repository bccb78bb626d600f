-- ===== src/Compile/Conditions.antt =====
-- `condition` of src/compile/lower.rs with the scalars that it takes.
use domiform.Base.{
  ◌<◌, ◌≡◌, arith, ℕ, zero, suc, ◌+◌, ◌*◌, ◌&&◌, Option, none, some, List, [], ◌∷◌, ◌++◌,
  if◌then◌else◌, ◌==◌, leb,
}
use domiform.Base.Int.{pos}
use domiform.Base.Text.{Text, bytes, text_eq}
use domiform.Model.Capability.{CapabilityKind}
use domiform.Color.Hex.{hex_to_rgb}
use domiform.Rule.Truth.{CmpOp}
use domiform.Rule.Condition.{
  Condition, Conditions, nil, cons, negation, conjunction, disjunction, bool_equals, compare,
  color_equals,
}
use domiform.Compile.Ast.{Yaml}
use domiform.Compile.Scalars.{hour_minute}
use domiform.Compile.Lowering.{
  Scope, Lowering, pure, ◌>>=◌, ◌>>◌, attempt, lift, fail, expect, single_entry, as_name, as_flag,
  payload, resolve_device, require_cap, numeric_capability, parse_cmp_op,
}

module _ (context : Text) where
  -- The minute of the day.
  unfoldable pub parse_time : Text → Lowering ℕ
  parse_time s = do
    (h, m) ←
        expect context (hour_minute s) (bytes "E_BAD_TIME")
          (bytes "invalid time '" ++ s ++ bytes "' (expected HH:MM)")
    pure (h * 60 + m)

-- An en dash.
abbrev pub dash : Text
dash = 226 ∷ 128 ∷ 147 ∷ []

module _ (y : Yaml) where
  -- The channels of `{ r, g, b }`.
  abbrev color_channel : List (y.Value × y.Value) → Text → Option ℕ
  color_channel m k = elim (y.get m k) [ some v ↦ y.as_u64 v | none ↦ none ]

  unfoldable pub channels : List (y.Value × y.Value) → Option (ℕ × ℕ × ℕ)
  channels m = elim (color_channel m (bytes "r")) [
    | none ↦ none
    | some r ↦ elim (color_channel m (bytes "g")) [
      | none ↦ none
      | some g ↦ elim (color_channel m (bytes "b")) [
        | none ↦ none
        | some b ↦ if leb r 255 && leb g 255 && leb b 255 then some (r, g, b) else none
      ]
    ]
  ]

  unfoldable pub object_color : y.Value → Option (ℕ × ℕ × ℕ)
  unfolding channels
  object_color v = elim (y.as_mapping v) [ some m ↦ channels m | none ↦ none ]

  pub object_color-bytes :
      (v : y.Value) (r g b : ℕ)
      → object_color v ≡ some (r, g, b)
      → (r < 256) × (g < 256) × (b < 256)
  unfolding object_color channels
  object_color-bytes v r g b h = ground (arith, h)

  unfoldable pub parse_color : Text → y.Value → Lowering (ℕ × ℕ × ℕ)
  parse_color context v = elim (y.as_str v) [
    | some s ↦
        expect context (hex_to_rgb s) (bytes "E_BAD_COLOR")
          (bytes "invalid hex color '" ++ s ++ bytes "' (expected `#RRGGBB`)")
    | none ↦ expect context (object_color v) (bytes "E_BAD_COLOR") (
        bytes "color must be a `#RRGGBB` hex string or `{ r, g, b }` object with values 0"
        ++ dash
        ++ bytes "255")
  ]

-- One round of the loop of `condition_list`, and its result `ok.then_some(out)`.
abbrev pub join : Option Condition → Option Conditions → Option Conditions
join (some c) (some cs) = some (cons c cs)
join _ _ = none

module _ (y : Yaml) (scope : Scope) (context : Text) where
  unfoldable pub sun_up_condition : y.Value → Lowering Condition
  sun_up_condition v = do
    value ← as_flag y context v (bytes "sun_up")
    pure (bool_equals scope.clock_device CapabilityKind.sun_up value)

  unfoldable pub switch_condition : y.Value → Lowering Condition
  switch_condition v = do
    s ← payload y context y.switch_is v (bytes "switch")
    device ← resolve_device scope context s.device
    require_cap scope context device s.device CapabilityKind.switch (bytes "switch")
    pure (bool_equals device CapabilityKind.switch s.on)

  unfoldable pub occupancy_condition : y.Value → Lowering Condition
  occupancy_condition v = do
    o ← payload y context y.occupancy_is v (bytes "occupancy_is")
    device ← resolve_device scope context o.device
    require_cap scope context device o.device CapabilityKind.occupancy (bytes "occupancy_is")
    pure (bool_equals device CapabilityKind.occupancy o.occupied)

  unfoldable pub compare_condition : y.Value → Lowering Condition
  compare_condition v = do
    c ← payload y context y.compare v (bytes "compare")
    device ← resolve_device scope context c.device
    kind ← numeric_capability context c.capability
    op ← parse_cmp_op context c.op
    require_cap scope context device c.device kind (bytes "compare")
    pure (compare device kind op c.value)

  unfoldable pub color_condition : y.Value → Lowering Condition
  color_condition v = do
    c ← payload y context y.color_is v (bytes "color_is")
    device ← resolve_device scope context c.device
    require_cap scope context device c.device CapabilityKind.color (bytes "color_is")
    (r, g, b) ← parse_color y context c.color
    pure (color_equals device r g b)

  unfoldable pub time_condition : CmpOp → Text → y.Value → Lowering Condition
  time_condition op node v = do
    t ← as_name y context v node
    minute ← parse_time context t
    pure (compare scope.clock_device CapabilityKind.time_of_day op (pos minute))

  -- The conditions on what a device or the clock reports.
  unfoldable pub leaf_condition : Text → y.Value → Lowering Condition
  leaf_condition verb v =
      if verb == bytes "sun_up"
      then sun_up_condition v
      else if verb == bytes "switch"
      then switch_condition v
      else if verb == bytes "occupancy_is"
      then occupancy_condition v
      else if verb == bytes "compare"
      then compare_condition v
      else if verb == bytes "color_is"
      then color_condition v
      else if verb == bytes "time_after"
      then time_condition CmpOp.ge (bytes "time_after") v
      else if verb == bytes "time_before"
      then time_condition CmpOp.lt (bytes "time_before") v
      else fail context (bytes "E_UNKNOWN_CONDITION")
          (bytes "unknown condition '" ++ verb ++ bytes "'")

  -- `inner` is the method that lowers a part of the node.
  module _ (inner : y.Value → Lowering Condition) where
    unfoldable pub lower_items : List y.Value → Lowering (Option Conditions)
    unfolding attempt
    lower_items [] = pure (some nil)
    lower_items (item ∷ items) = do
      c ← attempt (inner item)
      rest ← lower_items items
      pure (join c rest)

    unfoldable pub condition_list : y.Value → Text → Lowering Conditions
    unfolding expect lower_items lift
    condition_list v node = do
      items ←
          expect context (y.as_sequence v) (bytes "E_BAD_NODE")
            (bytes "'" ++ node ++ bytes "' expects a list of conditions")
      out ← lower_items items
      lift out

    unfoldable pub condition_of : Text → y.Value → Lowering Condition
    unfolding condition_list leaf_condition
    condition_of verb v =
        if verb == bytes "all"
        then (do cs ← condition_list v verb; pure (conjunction cs))
        else if verb == bytes "any"
        then (do cs ← condition_list v verb; pure (disjunction cs))
        else if verb == bytes "not"
        then (do c ← inner v; pure (negation c))
        else leaf_condition verb v

  -- Nodes within `fuel` levels.
  unfoldable pub condition_within : ℕ → y.Value → Lowering Condition
  condition_within zero v = lift none
  condition_within (suc fuel) v = do
    (verb, body) ← single_entry y context v (bytes "condition")
    condition_of (condition_within fuel) verb body

  -- A node has no more levels than nodes.
  unfoldable pub condition : y.Value → Lowering Condition
  condition v = condition_within (suc (y.size v)) v
