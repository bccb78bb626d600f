-- ===== src/Rule/Truth.antt =====
-- `CmpOp` and the Kleene truth values of src/rule.rs.
use domiform.Base.{Bool, true, false, not, if◌then◌else◌}
use domiform.Base.Int.{ℤ, leb_ℤ, ltb_ℤ, beq_ℤ}

pub data CmpOp : Type 0 where
  lt le eq ne ge gt : CmpOp

unfoldable pub test : CmpOp → ℤ → ℤ → Bool
test CmpOp.lt actual bound = ltb_ℤ actual bound
test CmpOp.le actual bound = leb_ℤ actual bound
test CmpOp.eq actual bound = beq_ℤ actual bound
test CmpOp.ne actual bound = not (beq_ℤ actual bound)
test CmpOp.ge actual bound = leb_ℤ bound actual
test CmpOp.gt actual bound = ltb_ℤ bound actual

pub data Truth : Type 0 where
  true_ false_ unknown : Truth

unfoldable pub from_bool : Bool → Truth
from_bool b = if b then true_ else false_

unfoldable pub is_true : Truth → Bool
is_true true_ = true
is_true _ = false

unfoldable pub negate : Truth → Truth
negate true_ = false_
negate false_ = true_
negate unknown = unknown

unfoldable pub and : Truth → Truth → Truth
and false_ _ = false_
and true_ false_ = false_
and unknown false_ = false_
and true_ true_ = true_
and true_ unknown = unknown
and unknown true_ = unknown
and unknown unknown = unknown

unfoldable pub or : Truth → Truth → Truth
or true_ _ = true_
or false_ true_ = true_
or unknown true_ = true_
or false_ false_ = false_
or false_ unknown = unknown
or unknown false_ = unknown
or unknown unknown = unknown
