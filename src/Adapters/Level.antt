-- ===== src/Adapters/Level.antt =====
-- The conversion between percentages and 0..=254 levels of src/adapters/mod.rs.
use domiform.Base.{ℕ, ◌+◌, ◌*◌, ◌/◌, ◌%◌, ◌≤◌, min, ◌≡◌, arith}

-- The casts lose nothing: the operands stay far below 2 ^ 64, and the results below 256.
unfoldable pub pct_to_level : ℕ → ℕ
pct_to_level pct = (min pct 100 * 254 + 50) / 100

unfoldable pub level_to_pct : ℕ → ℕ
level_to_pct raw = (min raw 254 * 100 + 127) / 254 % 256

-- A percentage survives the way to a level and back, and one above 100 comes back as 100.
pub level_to_pct-pct_to_level : (pct : ℕ) → level_to_pct (pct_to_level pct) ≡ min pct 100
unfolding level_to_pct pct_to_level
level_to_pct-pct_to_level pct = omega arith

-- Levels stay in 0..=254 and percentages in 0..=100, and the order is kept.
pub level_bounds :
    (a b : ℕ)
    → a ≤ b
    → (pct_to_level a ≤ pct_to_level b)
      × (pct_to_level b ≤ 254)
      × (level_to_pct a ≤ level_to_pct b)
      × (level_to_pct b ≤ 100)
unfolding level_to_pct pct_to_level
level_bounds a b h = (omega arith, omega arith, omega arith, omega arith)
