-- ===== src/Rest/RoundTrip.antt =====
-- The codec of src/adapters/rest_api/json.rs there and back.
use domiform.Base.{
  ℕ, ◌≡◌, ◌≤◌, ◌<◌, Bool, false, none, some, [], ◌∷◌, ◌++◌, arith, refl, Option-cases, inl, inr,
  nat_eq, bool_eq, ◌^◌, ◌-◌, Bool-cases,
}
use domiform.Base.Assoc.{Assoc, lookup, IsMap}
use domiform.Base.Int.{ℤ, pos, negsuc, ◌≤ℤ◌}
use domiform.Base.Text.{Text, bytes, text_eq, text_beq_iff}
use domiform.Model.Capability.{CapabilityKind, CapabilityState, kind, InWidth}
use domiform.Model.Names.{name}
use domiform.Rest.Json.{Json, IsJson}
use domiform.Rest.Value.{
  okay, to_i16, is_channel, extra_key, state_to_json, bool_of, int_of, pct_of, channel, color_of,
  state_from_json,
}

-- The canonical ranges of src/model.rs: the widths of the fields, percentages up to 100 and the minutes
-- of a day.
abbrev pub InRange : CapabilityState → Type 0
InRange (CapabilityState.brightness v) = v ≤ 100
InRange (CapabilityState.battery v) = v ≤ 100
InRange (CapabilityState.humidity v) = v ≤ 100
InRange (CapabilityState.time_of_day v) = v ≤ 1439
InRange s = InWidth s

extra_key-some :
    {V : Type 0} (es : Assoc Text V) (k : Text)
    → extra_key es ≡ some k
    → (is_channel k ≡ false) × (v : V) × (lookup k es ≡ some v)
unfolding lookup
extra_key-some [] k h = cc
extra_key-some ((l, v) ∷ es) k h = elim (Bool-cases (is_channel l)) [
  | inl own ↦
      let next : extra_key es ≡ some k = ground (arith, own, h) in
      let (foreign, w, found) = extra_key-some es k next in
      (foreign, w, ground (arith, own, foreign, found, text_beq_iff l k))
  | inr other ↦
      let same : l ≡ k = ground (arith, other, h) in
      (ground (arith, same, other), v, ground (arith, same, text_beq_iff l k))
]

pub to_i16_small : (z : ℤ) → (negsuc 32767 ≤ℤ z) × (z ≤ℤ pos 32767) → to_i16 z ≡ z
to_i16_small (pos n) h = ground arith
to_i16_small (negsuc n) h = ground arith

module _ (j : Json) (lib : IsJson j) where
  bool_of-back : (b : Bool) (label : Text) → bool_of j (j.of_bool b) label ≡ okay b
  unfolding bool_of
  bool_of-back b label = ground (arith, lib.bool_back b)

  int_of-back :
      (z lo hi : ℤ) (label : Text)
      → negsuc (2 ^ 63 - 1) ≤ℤ lo
      → hi ≤ℤ pos (2 ^ 63 - 1)
      → lo ≤ℤ z
      → z ≤ℤ hi
      → int_of j (j.of_int z) label lo hi ≡ okay z
  unfolding int_of
  int_of-back z lo hi label l h lz zh =
      let back = lib.int_back z (omega arith) (omega arith) in ground (arith, back)

  pct_of-back : (v : ℕ) (label : Text) → v ≤ 100 → pct_of j (j.of_int (pos v)) label ≡ okay v
  unfolding pct_of
  pct_of-back v label h = ground (
    arith,
    int_of-back (pos v) (pos 0) (pos 100) label (omega arith) (omega arith) (omega arith)
        (omega arith),
  )

  channel-back :
      (fs : Assoc Text j.Value) (k : Text) (v : ℕ)
      → lookup k fs ≡ some (j.of_int (pos v))
      → v ≤ 255
      → channel j fs k ≡ okay v
  unfolding channel
  channel-back fs k v found h = ground (
    arith,
    found,
    int_of-back (pos v) (pos 0) (pos 255) (bytes "color." ++ k) (omega arith) (omega arith)
        (omega arith) (omega arith),
  )

  abbrev channels : ℕ → ℕ → ℕ → Assoc Text j.Value
  channels r g b =
      (bytes "r", j.of_int (pos r))
      ∷ (bytes "g", j.of_int (pos g))
      ∷ (bytes "b", j.of_int (pos b))
      ∷ []

  channels-IsMap : (r g b : ℕ) → IsMap (channels r g b)
  unfolding IsMap lookup
  channels-IsMap r g b = (refl, (refl, (refl, tt)))

  only_channels : (r g b : ℕ) (k : Text) → is_channel k ≡ false → lookup k (channels r g b) ≡ none
  unfolding lookup
  only_channels r g b k h = ground (
    arith,
    h,
    text_beq_iff (bytes "r") k,
    text_beq_iff (bytes "g") k,
    text_beq_iff (bytes "b") k,
    text_beq_iff k (bytes "r"),
    text_beq_iff k (bytes "g"),
    text_beq_iff k (bytes "b"),
  )

  own_keys :
      (r g b : ℕ) (fs : Assoc Text j.Value)
      → ((k : Text) → lookup k fs ≡ lookup k (channels r g b))
      → extra_key fs ≡ none
  own_keys r g b fs same = elim (Option-cases (extra_key fs)) [
    | inl nothing ↦ nothing
    | inr (k, extra) ↦
        let (foreign, w, found) = extra_key-some fs k extra in
        ground (arith, found, same k, only_channels r g b k foreign)
  ]

  color_of-back :
      (r g b : ℕ)
      → r < 256
      → g < 256
      → b < 256
      → color_of j (j.of_object (channels r g b)) ≡ okay (CapabilityState.color r g b)
  unfolding color_of lookup
  color_of-back r g b hr hg hb =
      let (fs, stored, same) = lib.object_back (channels r g b) (channels-IsMap r g b) in
      ground (
        arith,
        stored,
        channel-back fs (bytes "r") r (same (bytes "r")) (omega arith),
        channel-back fs (bytes "g") g (same (bytes "g")) (omega arith),
        channel-back fs (bytes "b") b (same (bytes "b")) (omega arith),
        own_keys r g b fs same,
      )

  -- Where the library gives back what is put into a value: a state in its canonical range is encoded as a
  -- value that decodes, for the capability of the state, to the same state.
  pub state_from_json-state_to_json :
      (s : CapabilityState) → InRange s → state_from_json j (kind s) (state_to_json j s) ≡ okay s
  unfolding state_from_json state_to_json kind
  state_from_json-state_to_json (CapabilityState.switch b) h =
      ground (arith, bool_of-back b (name CapabilityKind.switch))
  state_from_json-state_to_json (CapabilityState.brightness v) h =
      ground (arith, pct_of-back v (name CapabilityKind.brightness) h)
  state_from_json-state_to_json (CapabilityState.color r g b) h = color_of-back r g b h.0 h.1 h.2
  state_from_json-state_to_json (CapabilityState.color_temperature v) h = ground (
    arith,
    int_of-back (pos v) (pos 0) (pos 65535) (name CapabilityKind.color_temperature) (omega arith)
        (omega arith) (omega arith) (omega arith),
  )
  state_from_json-state_to_json (CapabilityState.occupancy b) h =
      ground (arith, bool_of-back b (name CapabilityKind.occupancy))
  state_from_json-state_to_json (CapabilityState.battery v) h =
      ground (arith, pct_of-back v (name CapabilityKind.battery) h)
  state_from_json-state_to_json (CapabilityState.temperature z) h = ground (
    arith,
    int_of-back z (negsuc 32767) (pos 32767) (name CapabilityKind.temperature) (omega arith)
        (omega arith) h.0 h.1,
    to_i16_small z h,
  )
  state_from_json-state_to_json (CapabilityState.humidity v) h =
      ground (arith, pct_of-back v (name CapabilityKind.humidity) h)
  state_from_json-state_to_json (CapabilityState.illuminance v) h = ground (
    arith,
    int_of-back (pos v) (pos 0) (pos 4294967295) (name CapabilityKind.illuminance) (omega arith)
        (omega arith) (omega arith) (omega arith),
  )
  state_from_json-state_to_json (CapabilityState.power v) h = ground (
    arith,
    int_of-back (pos v) (pos 0) (pos 4294967295) (name CapabilityKind.power) (omega arith)
        (omega arith) (omega arith) (omega arith),
  )
  state_from_json-state_to_json (CapabilityState.contact b) h =
      ground (arith, bool_of-back b (name CapabilityKind.contact))
  state_from_json-state_to_json (CapabilityState.water_leak b) h =
      ground (arith, bool_of-back b (name CapabilityKind.water_leak))
  state_from_json-state_to_json (CapabilityState.smoke b) h =
      ground (arith, bool_of-back b (name CapabilityKind.smoke))
  state_from_json-state_to_json (CapabilityState.time_of_day v) h = ground (
    arith,
    int_of-back (pos v) (pos 0) (pos 1439) (name CapabilityKind.time_of_day) (omega arith)
        (omega arith) (omega arith) (omega arith),
  )
  state_from_json-state_to_json (CapabilityState.sun_up b) h =
      ground (arith, bool_of-back b (name CapabilityKind.sun_up))
