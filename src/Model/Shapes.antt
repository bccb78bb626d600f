-- ===== src/Model/Shapes.antt =====
-- How the shapes of capabilities and the views of their states agree.
use domiform.Base.{Option, none, some, ◌≡◌, true, false, Bool, arith, ◌⊎◌}
use domiform.Model.Capability.{CapabilityState, kind, as_bool, as_i64, is_bool, is_numeric}

abbrev pub is_some {ℓ} : {A : Type ℓ} → Option A → Bool
is_some none = false
is_some (some _) = true

-- `is_bool` holds of exactly the kinds whose states have a Boolean view, `is_numeric` of exactly those
-- with a numeric view, and no state has both.
pub shapes_agree :
    (s : CapabilityState)
    → (is_bool (kind s) ≡ is_some (as_bool s))
      × (is_numeric (kind s) ≡ is_some (as_i64 s))
      × ((as_bool s ≡ none) ⊎ (as_i64 s ≡ none))
unfolding is_bool is_numeric kind as_bool as_i64
shapes_agree s = ground arith
