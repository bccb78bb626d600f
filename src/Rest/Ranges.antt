-- ===== src/Rest/Ranges.antt =====
-- What the decoder of src/adapters/rest_api/json.rs accepts.
use native.Mathlib.Nat.{mod-eq_of_lt}
use domiform.Base.{
  ◌≡◌, ◌≤◌, ◌<◌, ℕ, Bool, Option, none, some, ap, sym, ◌∙◌, ◌%◌, arith, refl, nat_eq, Option-cases,
  inl, inr, subst,
}
use domiform.Base.Assoc.{Assoc, lookup}
use domiform.Base.Int.{ℤ, pos, negsuc, ◌≤ℤ◌}
use domiform.Base.Text.{Text, bytes, text_eq}
use domiform.Model.Capability.{CapabilityKind, CapabilityState, kind}
use domiform.Rest.Json.{Json}
use domiform.Rest.Value.{
  Decoded, wrap, extra_key, unexpected_key, okay, failed, ◌then◌, bool_of, int_of, pct_of, channel,
  color_of, state_from_json,
}
use domiform.Rest.RoundTrip.{InRange, to_i16_small}

-- A decoded value satisfies `P`.
abbrev Gives : {A : Type 0} → (A → Type 0) → Decoded A → Type 0
Gives P (okay a) = P a
Gives P (failed err) = Unit

Gives-then :
    {A B : Type 0} (P : A → Type 0) (Q : B → Type 0) (d : Decoded A) (f : A → Decoded B)
    → Gives P d
    → ((a : A) → P a → Gives Q (f a))
    → Gives Q (d then f)
Gives-then P Q (okay a) f h k = k a h
Gives-then P Q (failed err) f h k = tt

wrap_id : (n hi m : ℕ) → hi < m → n ≤ hi → n % m ≡ n
wrap_id n hi m small le = mod-eq_of_lt (omega (arith, small, le))

wrap_le : (n hi m : ℕ) → hi < m → n ≤ hi → n % m ≤ hi
wrap_le n hi m small le = rw (wrap_id n hi m small le) le

-- A cast of an integer in the range of the type changes nothing.
wrap-exact :
    (z : ℤ) (hi m : ℕ) → hi < m → pos 0 ≤ℤ z → z ≤ℤ pos hi → (wrap z m ≤ hi) × (pos (wrap z m) ≡ z)
wrap-exact (pos n) hi m small lo le =
    let below : n ≤ hi = omega (arith, le) in
    (wrap_le n hi m small below, ap pos (wrap_id n hi m small below))
wrap-exact (negsuc n) hi m small lo le = ground (arith, lo)

module _ (j : Json) where
  -- A member of an object is the number.
  abbrev pub Holds : Assoc Text j.Value → Text → ℕ → Type 0
  Holds obj k n = (v : j.Value) × (lookup k obj ≡ some v) × (j.as_i64 v ≡ some (pos n))

  -- The JSON value says what the state says.
  abbrev pub Says : j.Value → CapabilityState → Type 0
  Says v (CapabilityState.color r g b) =
      (obj : Assoc Text j.Value) × (j.as_object v ≡ some obj)
      × Holds obj (bytes "r") r
      × Holds obj (bytes "g") g
      × Holds obj (bytes "b") b
  Says v (CapabilityState.switch b) = j.as_bool v ≡ some b
  Says v (CapabilityState.occupancy b) = j.as_bool v ≡ some b
  Says v (CapabilityState.contact b) = j.as_bool v ≡ some b
  Says v (CapabilityState.water_leak b) = j.as_bool v ≡ some b
  Says v (CapabilityState.smoke b) = j.as_bool v ≡ some b
  Says v (CapabilityState.sun_up b) = j.as_bool v ≡ some b
  Says v (CapabilityState.brightness n) = j.as_i64 v ≡ some (pos n)
  Says v (CapabilityState.battery n) = j.as_i64 v ≡ some (pos n)
  Says v (CapabilityState.humidity n) = j.as_i64 v ≡ some (pos n)
  Says v (CapabilityState.color_temperature n) = j.as_i64 v ≡ some (pos n)
  Says v (CapabilityState.illuminance n) = j.as_i64 v ≡ some (pos n)
  Says v (CapabilityState.power n) = j.as_i64 v ≡ some (pos n)
  Says v (CapabilityState.time_of_day n) = j.as_i64 v ≡ some (pos n)
  Says v (CapabilityState.temperature z) = j.as_i64 v ≡ some z

  abbrev Fits : CapabilityKind → j.Value → CapabilityState → Type 0
  Fits k v s = (kind s ≡ k) × InRange s × Says v s

  abbrev IsInt : j.Value → ℤ → ℤ → ℤ → Type 0
  IsInt v lo hi z = (lo ≤ℤ z) × (z ≤ℤ hi) × (j.as_i64 v ≡ some z)

  Gives-int_of :
      (v : j.Value) (label : Text) (lo hi : ℤ) → Gives (IsInt v lo hi) (int_of j v label lo hi)
  unfolding int_of
  Gives-int_of v label lo hi = ground arith

  -- The unsigned number that is cast out of an integer in range.
  unsigned :
      (v : j.Value) (z : ℤ) (hi m : ℕ)
      → hi < m
      → IsInt v (pos 0) (pos hi) z
      → (wrap z m ≤ hi) × (j.as_i64 v ≡ some (pos (wrap z m)))
  unsigned v z hi m small (lo, le, read) =
      let (below, same) = wrap-exact z hi m small lo le in (below, read ∙ ap some (sym same))

  Gives-bool_of :
      (v : j.Value) (label : Text) → Gives (λ b. j.as_bool v ≡ some b) (bool_of j v label)
  unfolding bool_of
  Gives-bool_of v label = ground arith

  Gives-pct_of :
      (v : j.Value) (label : Text)
      → Gives (λ n. (n ≤ 100) × (j.as_i64 v ≡ some (pos n))) (pct_of j v label)
  unfolding pct_of
  Gives-pct_of v label =
      Gives-then (IsInt v (pos 0) (pos 100)) (λ n. (n ≤ 100) × (j.as_i64 v ≡ some (pos n)))
        (int_of j v label (pos 0) (pos 100)) _ (Gives-int_of v label (pos 0) (pos 100))
        (λ z h. unsigned v z 100 256 (omega arith) h)

  abbrev IsChannel : Assoc Text j.Value → Text → ℕ → Type 0
  IsChannel obj k n = (n < 256) × Holds obj k n

  Gives-channel : (obj : Assoc Text j.Value) (k : Text) → Gives (IsChannel obj k) (channel j obj k)
  unfolding channel
  Gives-channel obj k = elim (Option-cases (lookup k obj)) [
    | inl absent ↦ rw (absent, channel) tt
    | inr (v, found) ↦
        rw (found, channel)
          (Gives-then (IsInt v (pos 0) (pos 255)) (IsChannel obj k) _ _
            (Gives-int_of v _ (pos 0) (pos 255))
            (λ z h.
              let (le, read) = unsigned v z 255 256 (omega arith) h in
              (omega (arith, le), (v, found, read))))
  ]

  finish_color :
      (v : j.Value) (obj : Assoc Text j.Value) (r g b : ℕ) (extra : Option Text)
      → Fits CapabilityKind.color v (CapabilityState.color r g b)
      → Gives (Fits CapabilityKind.color v) (elim extra [
        | some e ↦ failed (unexpected_key e)
        | none ↦ okay (CapabilityState.color r g b)
      ])
  finish_color v obj r g b none h = h
  finish_color v obj r g b (some e) h = tt

  Gives-color_of : (v : j.Value) → Gives (Fits CapabilityKind.color v) (color_of j v)
  unfolding color_of kind
  Gives-color_of v = elim (Option-cases (j.as_object v)) [
    | inl absent ↦ rw (absent, color_of) tt
    | inr (obj, found) ↦
        let ends = Fits CapabilityKind.color v in
        rw (found, color_of)
          (Gives-then (IsChannel obj (bytes "r")) ends _ _ (Gives-channel obj (bytes "r")) (λ r hr.
            Gives-then (IsChannel obj (bytes "g")) ends _ _ (Gives-channel obj (bytes "g")) (λ g hg.
              Gives-then (IsChannel obj (bytes "b")) ends _ _ (Gives-channel obj (bytes "b"))
                (λ b hb.
                  finish_color v obj r g b (extra_key obj)
                    (refl, (hr.0, hg.0, hb.0), (obj, found, hr.1, hg.1, hb.1))))))
  ]

  -- A number of an unsigned type.
  Gives-unsigned :
      (k : CapabilityKind) (f : ℕ → CapabilityState) (v : j.Value) (label : Text) (hi m : ℕ)
      → hi < m
      → ((n : ℕ) → n ≤ hi → j.as_i64 v ≡ some (pos n) → Fits k v (f n))
      → Gives (Fits k v) (int_of j v label (pos 0) (pos hi) then λ z. okay (f (wrap z m)))
  Gives-unsigned k f v label hi m small fits =
      Gives-then (IsInt v (pos 0) (pos hi)) (Fits k v) _ _ (Gives-int_of v label (pos 0) (pos hi))
        (λ z h. let (le, read) = unsigned v z hi m small h in fits (wrap z m) le read)

  Gives-bool :
      (k : CapabilityKind) (f : Bool → CapabilityState) (v : j.Value) (label : Text)
      → ((b : Bool) → j.as_bool v ≡ some b → Fits k v (f b))
      → Gives (Fits k v) (bool_of j v label then λ b. okay (f b))
  Gives-bool k f v label fits =
      Gives-then (λ b. j.as_bool v ≡ some b) (Fits k v) _ _ (Gives-bool_of v label) fits

  Gives-percent :
      (k : CapabilityKind) (f : ℕ → CapabilityState) (v : j.Value) (label : Text)
      → ((n : ℕ) → n ≤ 100 → j.as_i64 v ≡ some (pos n) → Fits k v (f n))
      → Gives (Fits k v) (pct_of j v label then λ n. okay (f n))
  Gives-percent k f v label fits =
      Gives-then (λ n. (n ≤ 100) × (j.as_i64 v ≡ some (pos n))) (Fits k v) _ _
        (Gives-pct_of v label) (λ n h. fits n h.0 h.1)

  Gives-state_from_json :
      (k : CapabilityKind) (v : j.Value) → Gives (Fits k v) (state_from_json j k v)
  unfolding state_from_json kind
  Gives-state_from_json CapabilityKind.switch v =
      Gives-bool CapabilityKind.switch CapabilityState.switch v _ (λ b h. (refl, tt, h))
  Gives-state_from_json CapabilityKind.occupancy v =
      Gives-bool CapabilityKind.occupancy CapabilityState.occupancy v _ (λ b h. (refl, tt, h))
  Gives-state_from_json CapabilityKind.contact v =
      Gives-bool CapabilityKind.contact CapabilityState.contact v _ (λ b h. (refl, tt, h))
  Gives-state_from_json CapabilityKind.water_leak v =
      Gives-bool CapabilityKind.water_leak CapabilityState.water_leak v _ (λ b h. (refl, tt, h))
  Gives-state_from_json CapabilityKind.smoke v =
      Gives-bool CapabilityKind.smoke CapabilityState.smoke v _ (λ b h. (refl, tt, h))
  Gives-state_from_json CapabilityKind.sun_up v =
      Gives-bool CapabilityKind.sun_up CapabilityState.sun_up v _ (λ b h. (refl, tt, h))
  Gives-state_from_json CapabilityKind.brightness v =
      Gives-percent CapabilityKind.brightness CapabilityState.brightness v _ (λ n h r. (refl, h, r))
  Gives-state_from_json CapabilityKind.battery v =
      Gives-percent CapabilityKind.battery CapabilityState.battery v _ (λ n h r. (refl, h, r))
  Gives-state_from_json CapabilityKind.humidity v =
      Gives-percent CapabilityKind.humidity CapabilityState.humidity v _ (λ n h r. (refl, h, r))
  Gives-state_from_json CapabilityKind.color_temperature v =
      Gives-unsigned CapabilityKind.color_temperature CapabilityState.color_temperature v _ 65535
        65536 (omega arith) (λ n h r. (refl, omega (arith, h), r))
  Gives-state_from_json CapabilityKind.illuminance v =
      Gives-unsigned CapabilityKind.illuminance CapabilityState.illuminance v _ 4294967295
        4294967296 (omega arith) (λ n h r. (refl, omega (arith, h), r))
  Gives-state_from_json CapabilityKind.power v =
      Gives-unsigned CapabilityKind.power CapabilityState.power v _ 4294967295 4294967296
        (omega arith) (λ n h r. (refl, omega (arith, h), r))
  Gives-state_from_json CapabilityKind.time_of_day v =
      Gives-unsigned CapabilityKind.time_of_day CapabilityState.time_of_day v _ 1439 65536
        (omega arith) (λ n h r. (refl, omega (arith, h), r))
  Gives-state_from_json CapabilityKind.temperature v =
      Gives-then (IsInt v (negsuc 32767) (pos 32767)) (Fits CapabilityKind.temperature v) _ _
        (Gives-int_of v _ (negsuc 32767) (pos 32767))
        (λ z h.
          (refl, rw (to_i16_small z (h.0, h.1)) (h.0, h.1), rw (to_i16_small z (h.0, h.1)) h.2))
  Gives-state_from_json CapabilityKind.color v = Gives-color_of v
  Gives-state_from_json CapabilityKind.ir_transmitter v = tt

  -- Whatever value is decoded for a capability, a state that comes out is one of that capability, in its
  -- canonical range, and says what the value says: the Boolean, the integer, or the integers under the
  -- object's keys r, g and b, so that no cast has truncated anything.
  pub state_from_json-InRange :
      (k : CapabilityKind) (v : j.Value) (s : CapabilityState)
      → state_from_json j k v ≡ okay s
      → (kind s ≡ k) × InRange s × Says v s
  state_from_json-InRange k v s h = subst (Gives (Fits k v)) h (Gives-state_from_json k v)
