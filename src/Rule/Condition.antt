-- ===== src/Rule/Condition.antt =====
-- `Condition` of src/rule.rs and its evaluation.
use domiform.Base.{ℕ, Bool, Option, none, some, ◌&&◌, ◌==◌, nat_eq, bool_eq}
use domiform.Base.Int.{ℤ}
use domiform.State
use domiform.State.{StateStore}
use domiform.Model.Capability.{CapabilityKind, CapabilityState, DeviceId}
use domiform.Rule.Truth.{CmpOp, test, Truth, true_, false_, unknown, from_bool, negate, and, or}

mutual
  pub data Condition : Type 0 where
    always : Condition
    negation : Condition → Condition
    conjunction : Conditions → Condition
    disjunction : Conditions → Condition
    bool_equals : (device : DeviceId) (kind : CapabilityKind) (value : Bool) → Condition
    compare : (device : DeviceId) (kind : CapabilityKind) (op : CmpOp) (value : ℤ) → Condition
    color_equals : (device : DeviceId) (r g b : ℕ) → Condition

  -- `Vec<Condition>`
  pub data Conditions : Type 0 where
    nil : Conditions
    cons : Condition → Conditions → Conditions

-- The leaves, on what the store holds.
abbrev pub bool_leaf : Option Bool → Bool → Truth
bool_leaf none value = unknown
bool_leaf (some actual) value = from_bool (actual == value)

abbrev pub num_leaf : Option ℤ → CmpOp → ℤ → Truth
num_leaf none op value = unknown
num_leaf (some actual) op value = from_bool (test op actual value)

abbrev pub color_leaf : Option CapabilityState → ℕ → ℕ → ℕ → Truth
color_leaf (some (CapabilityState.color cr cg cb)) r g b = from_bool (cr == r && cg == g && cb == b)
color_leaf _ r g b = unknown

unfoldable mutual
  unfolding State.bool_value State.num_value

  pub eval : Condition → StateStore → Truth
  eval always s = true_
  eval (negation inner) s = negate (eval inner s)
  eval (conjunction cs) s = eval_and cs s true_
  eval (disjunction cs) s = eval_or cs s false_
  eval (bool_equals device kind value) s = bool_leaf (State.bool_value s device kind) value
  eval (compare device kind op value) s = num_leaf (State.num_value s device kind) op value
  eval (color_equals device r g b) s = color_leaf (State.get s device CapabilityKind.color) r g b

  -- The folds of `And` and `Or`.
  pub eval_and : Conditions → StateStore → Truth → Truth
  eval_and nil s acc = acc
  eval_and (cons c cs) s acc = eval_and cs s (and acc (eval c s))

  pub eval_or : Conditions → StateStore → Truth → Truth
  eval_or nil s acc = acc
  eval_or (cons c cs) s acc = eval_or cs s (or acc (eval c s))
