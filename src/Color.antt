-- ===== src/Color.antt =====
-- src/color.rs: hex colours and the white mix. Hue and saturation are floating point, and not modelled.
pub mod White
pub mod Hex
