-- ===== src/Rest/Value.antt =====
-- src/adapters/rest_api/json.rs: capability states to JSON and back.
use domiform.Base.{
  ℕ, ◌-◌, ◌%◌, Bool, ◌||◌, Option, none, some, List, [], ◌∷◌, ◌++◌, if◌then◌else◌, ◌==◌,
}
use domiform.Base.Assoc.{Assoc, lookup, insert}
use domiform.Base.Int.{ℤ, pos, negsuc, ◌+ℤ◌, ◌-ℤ◌, ltb_ℤ}
use domiform.Base.Text.{Text, bytes, text_eq}
use domiform.Model.Capability.{CapabilityKind, CapabilityState}
use domiform.Model.Names.{name}
use domiform.Rest.Json.{Json, Variant}

-- The messages of `ValueError`, with what they are formatted from.
pub data ValueError : Type 0 where
  expects_boolean : (name got : Text) → ValueError
  expects_integer : (name got : Text) → ValueError
  out_of_range : (name : Text) (min max n : ℤ) → ValueError
  expects_object : (got : Text) → ValueError
  missing_channel : (key : Text) → ValueError
  unexpected_key : (key : Text) → ValueError
  write_only : ValueError

-- `Result<A, ValueError>`
pub data Decoded (A : Type 0) : Type 0 where
  okay : A → Decoded A
  failed : ValueError → Decoded A

infixl 5 ◌then◌
abbrev pub ◌then◌ : {A B : Type 0} → Decoded A → (A → Decoded B) → Decoded B
(okay a) then f = f a
(failed err) then f = failed err

-- A cast of an integer to an unsigned type with `m` values, and to i16.
abbrev pub wrap : ℤ → ℕ → ℕ
wrap (pos n) m = n % m
wrap (negsuc n) m = m - 1 - n % m

abbrev pub to_i16 : ℤ → ℤ
to_i16 z = pos (wrap (z +ℤ pos 32768) 65536) -ℤ pos 32768

-- `type_of`
abbrev pub type_of : Variant → Text
type_of Variant.null = bytes "null"
type_of Variant.boolean = bytes "a boolean"
type_of Variant.fractional = bytes "a fractional number"
type_of Variant.number = bytes "a number"
type_of Variant.string = bytes "a string"
type_of Variant.array = bytes "an array"
type_of Variant.object = bytes "an object"

abbrev pub is_channel : Text → Bool
is_channel k = k == bytes "r" || k == bytes "g" || k == bytes "b"

-- `obj.keys().find(..)`: the first key that is no channel.
abbrev pub extra_key : {V : Type 0} → Assoc Text V → Option Text
extra_key [] = none
extra_key ((k, v) ∷ es) = let rest = extra_key es in if is_channel k then rest else some k

module _ (j : Json) where
  unfoldable pub state_to_json : CapabilityState → j.Value
  state_to_json (CapabilityState.switch b) = j.of_bool b
  state_to_json (CapabilityState.occupancy b) = j.of_bool b
  state_to_json (CapabilityState.contact b) = j.of_bool b
  state_to_json (CapabilityState.water_leak b) = j.of_bool b
  state_to_json (CapabilityState.smoke b) = j.of_bool b
  state_to_json (CapabilityState.sun_up b) = j.of_bool b
  state_to_json (CapabilityState.brightness v) = j.of_int (pos v)
  state_to_json (CapabilityState.battery v) = j.of_int (pos v)
  state_to_json (CapabilityState.humidity v) = j.of_int (pos v)
  state_to_json (CapabilityState.color_temperature v) = j.of_int (pos v)
  state_to_json (CapabilityState.time_of_day v) = j.of_int (pos v)
  state_to_json (CapabilityState.temperature v) = j.of_int v
  state_to_json (CapabilityState.illuminance v) = j.of_int (pos v)
  state_to_json (CapabilityState.power v) = j.of_int (pos v)
  state_to_json (CapabilityState.color r g b) = j.of_object (
      (bytes "r", j.of_int (pos r))
      ∷ (bytes "g", j.of_int (pos g))
      ∷ (bytes "b", j.of_int (pos b))
      ∷ [])

  unfoldable pub bool_of : j.Value → Text → Decoded Bool
  bool_of value label = elim (j.as_bool value) [
    | some b ↦ okay b
    | none ↦ failed (expects_boolean label (type_of (j.variant value)))
  ]

  unfoldable pub int_of : j.Value → Text → ℤ → ℤ → Decoded ℤ
  int_of value label min max = elim (j.as_i64 value) [
    | none ↦ failed (expects_integer label (type_of (j.variant value)))
    | some n ↦ if ltb_ℤ n min || ltb_ℤ max n then failed (out_of_range label min max n) else okay n
  ]

  unfoldable pub pct_of : j.Value → Text → Decoded ℕ
  pct_of value label = int_of value label (pos 0) (pos 100) then λ v. okay (wrap v 256)

  -- The closure `channel`.
  unfoldable pub channel : Assoc Text j.Value → Text → Decoded ℕ
  channel obj k = elim (lookup k obj) [
    | none ↦ failed (missing_channel k)
    | some v ↦ int_of v (bytes "color." ++ k) (pos 0) (pos 255) then λ n. okay (wrap n 256)
  ]

  unfoldable pub color_of : j.Value → Decoded CapabilityState
  color_of value = elim (j.as_object value) [
    | none ↦ failed (expects_object (type_of (j.variant value)))
    | some obj ↦ channel obj (bytes "r") then λ r. channel obj (bytes "g") then λ g.
        channel obj (bytes "b") then λ b. elim (extra_key obj) [
          | some extra ↦ failed (unexpected_key extra)
          | none ↦ okay (CapabilityState.color r g b)
        ]
  ]

  unfoldable pub state_from_json : CapabilityKind → j.Value → Decoded CapabilityState
  state_from_json CapabilityKind.switch value =
      bool_of value (name CapabilityKind.switch) then λ b. okay (CapabilityState.switch b)
  state_from_json CapabilityKind.brightness value =
      pct_of value (name CapabilityKind.brightness) then λ v. okay (CapabilityState.brightness v)
  state_from_json CapabilityKind.color value = color_of value
  state_from_json CapabilityKind.color_temperature value =
      int_of value (name CapabilityKind.color_temperature) (pos 0) (pos 65535) then λ v.
      okay (CapabilityState.color_temperature (wrap v 65536))
  state_from_json CapabilityKind.occupancy value =
      bool_of value (name CapabilityKind.occupancy) then λ b. okay (CapabilityState.occupancy b)
  state_from_json CapabilityKind.battery value =
      pct_of value (name CapabilityKind.battery) then λ v. okay (CapabilityState.battery v)
  state_from_json CapabilityKind.temperature value =
      int_of value (name CapabilityKind.temperature) (negsuc 32767) (pos 32767) then λ v.
      okay (CapabilityState.temperature (to_i16 v))
  state_from_json CapabilityKind.humidity value =
      pct_of value (name CapabilityKind.humidity) then λ v. okay (CapabilityState.humidity v)
  state_from_json CapabilityKind.illuminance value =
      int_of value (name CapabilityKind.illuminance) (pos 0) (pos 4294967295) then λ v.
      okay (CapabilityState.illuminance (wrap v 4294967296))
  state_from_json CapabilityKind.power value =
      int_of value (name CapabilityKind.power) (pos 0) (pos 4294967295) then λ v.
      okay (CapabilityState.power (wrap v 4294967296))
  state_from_json CapabilityKind.contact value =
      bool_of value (name CapabilityKind.contact) then λ b. okay (CapabilityState.contact b)
  state_from_json CapabilityKind.water_leak value =
      bool_of value (name CapabilityKind.water_leak) then λ b. okay (CapabilityState.water_leak b)
  state_from_json CapabilityKind.smoke value =
      bool_of value (name CapabilityKind.smoke) then λ b. okay (CapabilityState.smoke b)
  state_from_json CapabilityKind.time_of_day value =
      int_of value (name CapabilityKind.time_of_day) (pos 0) (pos 1439) then λ v.
      okay (CapabilityState.time_of_day (wrap v 65536))
  state_from_json CapabilityKind.sun_up value =
      bool_of value (name CapabilityKind.sun_up) then λ b. okay (CapabilityState.sun_up b)
  state_from_json CapabilityKind.ir_transmitter value = failed write_only

  -- `capabilities_object`: each insertion into the map replaces an earlier one of the same key.
  unfoldable pub capabilities_entries :
      List CapabilityKind
      → (CapabilityKind → Option CapabilityState)
      → Assoc Text j.Value
      → Assoc Text j.Value
  capabilities_entries [] states out = out
  capabilities_entries (k ∷ ks) states out =
      capabilities_entries ks states
        (insert (name k) (elim (states k) [ some s ↦ state_to_json s | none ↦ j.null ]) out)

  unfoldable pub capabilities_object :
      List CapabilityKind → (CapabilityKind → Option CapabilityState) → j.Value
  unfolding capabilities_entries
  capabilities_object ks states = j.of_object (capabilities_entries ks states [])
