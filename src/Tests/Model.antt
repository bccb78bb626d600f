-- ===== src/Tests/Model.antt =====
-- Tests of the model of src/model.rs, src/state.rs and the level conversion of src/adapters/mod.rs.
use domiform.Base.{◌≡◌, ◌↔◌, ◌≤◌, ◌⊎◌, refl, none, some, arith, min}
use domiform.Base.Text.{bytes}
use domiform.Base.Int.{negsuc}
use domiform.Model.Capability.{
  CapabilityKind, CapabilityState, kind, as_bool, as_i64, is_bool, is_numeric,
}
use domiform.Model.Command.{Command}
use domiform.Model.Names.{name, from_name, from_name_iff_name}
use domiform.Model.Shapes.{shapes_agree, is_some}
use domiform.State
use domiform.State.{StateStore, empty}
use domiform.State.Keyed.{IsKeyed, empty-IsKeyed, set-IsKeyed}
use domiform.Adapters.Level.{pct_to_level, level_to_pct, level_to_pct-pct_to_level, level_bounds}
use domiform.Adapters.Echo.{mock_dispatch, virtual_dispatch, virtual-mock}

from_name_iff_name_example :
    (from_name (bytes "water_leak") ≡ some CapabilityKind.water_leak)
    ↔ (name CapabilityKind.water_leak ≡ bytes "water_leak")
from_name_iff_name_example = from_name_iff_name (bytes "water_leak") CapabilityKind.water_leak

unknown_name : from_name (bytes "Switch") ≡ none
unfolding from_name
unknown_name = refl

abbrev frost : CapabilityState
frost = CapabilityState.temperature (negsuc 499)

shapes_agree_example :
    (is_bool (kind frost) ≡ is_some (as_bool frost))
    × (is_numeric (kind frost) ≡ is_some (as_i64 frost))
    × ((as_bool frost ≡ none) ⊎ (as_i64 frost ≡ none))
shapes_agree_example = shapes_agree frost

set-IsKeyed_example : IsKeyed (State.set empty 7 frost)
set-IsKeyed_example = set-IsKeyed 7 frost empty-IsKeyed

level_to_pct-pct_to_level_example : level_to_pct (pct_to_level 37) ≡ min 37 100
level_to_pct-pct_to_level_example = level_to_pct-pct_to_level 37

level_bounds_example :
    (pct_to_level 20 ≤ pct_to_level 180)
    × (pct_to_level 180 ≤ 254)
    × (level_to_pct 20 ≤ level_to_pct 180)
    × (level_to_pct 180 ≤ 100)
level_bounds_example = level_bounds 20 180 (omega arith)

virtual-mock_example :
    virtual_dispatch (Command.set_brightness 3 40 none)
    ≡ some (mock_dispatch (Command.set_brightness 3 40 none))
virtual-mock_example = virtual-mock (Command.set_brightness 3 40 none)
