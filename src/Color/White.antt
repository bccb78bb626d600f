-- ===== src/Color/White.antt =====
-- Colour temperatures as a mix of warm and cold white, of src/color.rs.
use native.Mathlib.Nat.{
  mul-le-mul_left, le-div_iff_mul-le, div-lt_iff_lt-mul, div-le_of_le-mul, div-mul-le_self,
}
use domiform.Base.{
  ℕ, ◌+◌, ◌-◌, ◌*◌, ◌/◌, ◌%◌, ◌^◌, ◌≤◌, ◌<◌, ◌≡◌, min, max, Option, none, some, arith, ◌&&◌,
  if◌then◌else◌, nat_eq, ◌⊎◌, nat_beq,
}

abbrev pub warm_kelvin : ℕ
warm_kelvin = 2700

abbrev pub cold_kelvin : ℕ
cold_kelvin = 6500

-- `clamp` to the tunable band.
abbrev in_band : ℕ → ℕ
in_band kelvin = min (max kelvin warm_kelvin) cold_kelvin

unfoldable pub mireds_to_warm_cold : ℕ → ℕ × ℕ
mireds_to_warm_cold mireds =
    let kelvin = in_band (1000000 / max mireds 1) in
    let cold_pct = (kelvin - warm_kelvin) * 100 / (cold_kelvin - warm_kelvin) in
    (255 * (100 - cold_pct) / 100 % 256, 255 * cold_pct / 100 % 256)

-- The products and sums of u64 wrap around.
unfoldable pub warm_cold_to_mireds : ℕ → ℕ → Option ℕ
warm_cold_to_mireds warm cold =
    let cold_pct = cold * 100 % 2 ^ 64 / max ((warm + cold) % 2 ^ 64) 1 % 2 ^ 32 in
    let kelvin = warm_kelvin + (cold_kelvin - warm_kelvin) * cold_pct % 2 ^ 32 / 100 in
    if nat_beq warm 0 && nat_beq cold 0
    then none
    else some (min (1000000 / max (kelvin % 2 ^ 32) 1) 65535)

quotient_anti : (a b : ℕ) → a ≤ b → 1000000 / max b 1 ≤ 1000000 / max a 1
quotient_anti a b le = (le-div_iff_mul-le (omega arith)).1 (
    let grown = mul-le-mul_left {m = max a 1} {n = max b 1} (1000000 / max b 1) (omega arith) in
    omega (arith, grown, div-mul-le_self 1000000 (max b 1)))

-- The mix at a percentage of cold.
mixed :
    (p : ℕ)
    → p ≤ 100
    → (255 * (100 - p) / 100 % 256 + 255 * p / 100 % 256 ≤ 255)
      × (254 ≤ 255 * (100 - p) / 100 % 256 + 255 * p / 100 % 256)
mixed p h = omega arith

in_band_mono :
    (a b : ℕ)
    → a ≤ b
    → (in_band a - warm_kelvin) * 100 / 3800 ≤ (in_band b - warm_kelvin) * 100 / 3800
in_band_mono a b le = omega arith

in_band_pct : (a : ℕ) → (in_band a - warm_kelvin) * 100 / 3800 ≤ 100
in_band_pct a = omega arith

cold_mono : (p q : ℕ) → p ≤ q → q ≤ 100 → 255 * p / 100 % 256 ≤ 255 * q / 100 % 256
cold_mono p q le h = omega arith

share_le :
    (warm cold : ℕ)
    → warm < 256
    → cold < 256
    → cold * 100 % 2 ^ 64 / max ((warm + cold) % 2 ^ 64) 1 ≤ 100
share_le warm cold hw hc = div-le_of_le-mul (max ((warm + cold) % 2 ^ 64) 1) (omega arith)

mireds_in_band : (k : ℕ) → 2700 ≤ k → k ≤ 6500 → (153 ≤ 1000000 / k) × (1000000 / k < 371)
mireds_in_band k lo hi = (
  (le-div_iff_mul-le (omega arith)).1 (omega arith),
  (div-lt_iff_lt-mul (omega arith)).1 (omega arith),
)

-- Both channels fit a byte and together give 254 or 255, for every mireds value; a warmer request never
-- gives more cold.
pub mix_lem :
    (m n : ℕ)
    → m ≤ n
    → ((mireds_to_warm_cold m).0 + (mireds_to_warm_cold m).1 ≤ 255)
      × (254 ≤ (mireds_to_warm_cold m).0 + (mireds_to_warm_cold m).1)
      × ((mireds_to_warm_cold n).1 ≤ (mireds_to_warm_cold m).1)
unfolding mireds_to_warm_cold
mix_lem m n le =
    let a = 1000000 / max m 1 in
    let b = 1000000 / max n 1 in
    let (low, high) = mixed ((in_band a - warm_kelvin) * 100 / 3800) (in_band_pct a) in
    let less = in_band_mono b a (quotient_anti m n le) in
    (low, high, cold_mono _ _ less (in_band_pct a))

-- Channels that are reported as bytes give a temperature exactly if one of them is lit, and then it lies
-- between 153 and 370 mireds, the ends of the band.
pub warm_cold_to_mireds-band :
    (warm cold : ℕ)
    → warm < 256
    → cold < 256
    → ((warm ≡ 0) × (cold ≡ 0) × (warm_cold_to_mireds warm cold ≡ none))
      ⊎ ((m : ℕ) × (warm_cold_to_mireds warm cold ≡ some m) × (153 ≤ m) × (m ≤ 370))
unfolding warm_cold_to_mireds
warm_cold_to_mireds-band warm cold hw hc =
    let share = cold * 100 % 2 ^ 64 / max ((warm + cold) % 2 ^ 64) 1 in
    let small : share ≤ 100 = share_le warm cold hw hc in
    let k = max ((2700 + 3800 * (share % 2 ^ 32) % 2 ^ 32 / 100) % 2 ^ 32) 1 in
    let (low, high) = mireds_in_band k (omega (arith, small)) (omega (arith, small)) in
    ground (arith, low, high)
