-- ===== src/Tests/Color.antt =====
-- Tests of the model of src/color.rs.
use domiform.Base.{ℕ, ◌≡◌, ◌≤◌, ◌+◌, ◌⊎◌, some, none, true, false, ◌∷◌, refl, arith}
use domiform.Base.Text.{Text, bytes}
use domiform.Color.Hex.{hex_to_rgb, six_digits, hex_to_rgb-two_digits}
use domiform.Color.White.{
  mireds_to_warm_cold, warm_cold_to_mireds, mix_lem, warm_cold_to_mireds-band,
}

too_short : hex_to_rgb (bytes "#fff") ≡ none
unfolding hex_to_rgb
too_short = refl

hex_to_rgb-two_digits_example :
    (hex_to_rgb (35 ∷ six_digits true false false false false false 255 128 0) ≡ some (255, 128, 0))
    × (hex_to_rgb (six_digits true false false false false false 255 128 0) ≡ some (255, 128, 0))
hex_to_rgb-two_digits_example =
    hex_to_rgb-two_digits true false false false false false 255 128 0 (omega arith) (omega arith)
      (omega arith)

mix_lem_example :
    ((mireds_to_warm_cold 153).0 + (mireds_to_warm_cold 153).1 ≤ 255)
    × (254 ≤ (mireds_to_warm_cold 153).0 + (mireds_to_warm_cold 153).1)
    × ((mireds_to_warm_cold 370).1 ≤ (mireds_to_warm_cold 153).1)
mix_lem_example = mix_lem 153 370 (omega arith)

abbrev lit : ℕ
lit = 255

abbrev dark : ℕ
dark = 0

warm_cold_to_mireds-band_example :
    ((lit ≡ 0) × (dark ≡ 0) × (warm_cold_to_mireds lit dark ≡ none))
    ⊎ ((m : ℕ) × (warm_cold_to_mireds lit dark ≡ some m) × (153 ≤ m) × (m ≤ 370))
warm_cold_to_mireds-band_example = warm_cold_to_mireds-band lit dark (omega arith) (omega arith)
