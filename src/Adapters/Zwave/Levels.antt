-- ===== src/Adapters/Zwave/Levels.antt =====
-- Percentages and the levels of a Multilevel Switch, of src/adapters/zwavejs.rs.
use domiform.Base.{ℕ, ◌+◌, ◌*◌, ◌/◌, ◌≤◌, ◌<◌, ◌≡◌, ◌↔◌, min, arith}

-- The casts lose nothing: the operands stay below 2 ^ 16, and the results below 256.
unfoldable pub pct_to_zwave : ℕ → ℕ
pct_to_zwave pct = (min pct 100 * 99 + 50) / 100

unfoldable pub zwave_to_pct : ℕ → ℕ
zwave_to_pct level = (min level 99 * 100 + 49) / 99

pub pct_to_zwave-zwave_to_pct : (level : ℕ) → pct_to_zwave (zwave_to_pct level) ≡ min level 99
unfolding pct_to_zwave zwave_to_pct
pct_to_zwave-zwave_to_pct level = omega arith

-- One of the 101 percentages has to give way on 100 levels: the way back is off by one at most.
pub zwave_to_pct-pct_to_zwave :
    (pct : ℕ)
    → (zwave_to_pct (pct_to_zwave pct) ≤ min pct 100 + 1)
      × (min pct 100 ≤ zwave_to_pct (pct_to_zwave pct) + 1)
unfolding pct_to_zwave zwave_to_pct
zwave_to_pct-pct_to_zwave pct = (omega arith, omega arith)

pub zwave_to_pct_le : (level : ℕ) → zwave_to_pct level ≤ 100
unfolding zwave_to_pct
zwave_to_pct_le level = omega arith

pub pct_to_zwave_le : (pct : ℕ) → pct_to_zwave pct ≤ 99
unfolding pct_to_zwave
pct_to_zwave_le pct = omega arith

pub pct_to_zwave_positive : (pct : ℕ) → (0 < pct_to_zwave pct) ↔ (0 < pct)
unfolding pct_to_zwave
pct_to_zwave_positive pct = (λ h. omega arith, λ h. omega arith)
