-- ===== src/Adapters/Zwave/Reports.antt =====
-- What the value reports of src/adapters/zwavejs.rs may and may not cause.
use domiform.Base.{
  ℕ, ◌≡◌, ◌<◌, Bool, true, false, Option, none, some, List, [], ◌∷◌, ◌++◌, arith, All, In, nat_eq,
  pair_eq, All-append, All-map, inl, inr, Option-cases, refl, sym, ◌>>=◌, not, ◌&&◌, if◌then◌else◌,
  nat_beq, min, ltb,
}
use domiform.Base.Assoc.{Assoc, lookup}
use domiform.Base.Text.{Text, bytes, text_eq, text_beq_iff, text_beq}
use domiform.Model.Capability.{CapabilityState, DeviceId, ActionId}
use domiform.Model.Command.{Event}
use domiform.Color.White.{warm_cold_to_mireds}
use domiform.Rest.RoundTrip.{InRange}
use domiform.Adapters.Zwave.Levels.{zwave_to_pct, zwave_to_pct_le}
use domiform.Adapters.Zwave.Defs.{
  Wire, ZwaveClient, ZwaveAdapter, ValueUpdate, Actions, NodeId, EndpointId, update_to_events,
  pressed, key_attribute_name, normalize_button, stateful, colored, occupied, parse_zwave_color,
  parse_zwave_color_temp, tick, events_of, to_list,
}

-- The properties that tell the state of a device; the targets are not among them.
abbrev pub reported_properties : List Text
reported_properties =
    bytes "currentValue" ∷ bytes "level" ∷ bytes "currentColor" ∷ bytes "Home Security" ∷ []

parsed_in_bytes :
    (w : Wire) (v : w.Value) (r g b : ℕ)
    → parse_zwave_color w v ≡ some (r, g, b)
    → (r < 256) × (g < 256) × (b < 256)
unfolding parse_zwave_color
parsed_in_bytes w v r g b h = ground (arith, h)

parsed_in_width : (w : Wire) (v : w.Value) (m : ℕ) → parse_zwave_color_temp w v ≡ some m → m < 65536
unfolding parse_zwave_color_temp warm_cold_to_mireds
parsed_in_width w v m h = ground (arith, h)

All-if :
    (P : Event → Type 0) (b : Bool) (xs ys : List Event)
    → (b ≡ true → All P xs)
    → (b ≡ false → All P ys)
    → All P (if b then xs else ys)
All-if P true xs ys then_ else_ = then_ refl
All-if P false xs ys then_ else_ = else_ refl

property_of : (a : Bool) (s t : Text) → (a && text_beq s t) ≡ true → s ≡ t
property_of a s t h = ground (arith, h, text_beq_iff s t)

module _ (w : Wire) where
  -- An update accounts for an event of the device at its address: an action is one that the device
  -- declares, on a notification of a Central Scene; a state is within its range, and no echo of a target.
  abbrev pub Accounts :
      Assoc (NodeId × EndpointId) DeviceId → Actions w → ValueUpdate w → Event → Type 0
  Accounts by_node actions u (Event.action d a) =
      (lookup (u.node, u.endpoint) by_node ≡ some d)
      × (u.notification ≡ true)
      × (u.command_class ≡ 91)
      × (u.property ≡ bytes "scene")
      × (raw : Text) × (declared : Assoc Text ActionId) × (lookup d actions ≡ some declared)
      × (lookup raw declared ≡ some a)
  Accounts by_node actions u (Event.state_reported d s) =
      (lookup (u.node, u.endpoint) by_node ≡ some d) × In u.property reported_properties × InRange s
  Accounts by_node actions u _ = (true ≡ false)

  module _ (by_node : Assoc (NodeId × EndpointId) DeviceId) (actions : Actions w)
      (u : ValueUpdate w) where
    abbrev FromState : DeviceId → CapabilityState → Type 0
    FromState d s = Accounts by_node actions u (Event.state_reported d s)

    bound :
        {A : Type 0} (o : Option A) (f : A → Option Event)
        → ((a : A) → o ≡ some a → All (Accounts by_node actions u) (to_list w (f a)))
        → All (Accounts by_node actions u) (to_list w (o >>= f))
    bound none f h = tt
    bound (some a) f h = h a refl

    -- A view of the value that gives a state gives an event that is accounted for.
    viewed :
        {A : Type 0} (d : DeviceId) (view : Option A) (f : A → CapabilityState)
        → ((a : A) → view ≡ some a → FromState d (f a))
        → All
            (Accounts by_node actions u)
            (to_list w (view >>= λ a. some (Event.state_reported d (f a))))
    viewed d none f h = tt
    viewed d (some a) f h = (h a refl, tt)

    colored_accounts :
        (d : DeviceId)
        → lookup (u.node, u.endpoint) by_node ≡ some d
        → u.property ≡ bytes "currentColor"
        → All (Accounts by_node actions u) (colored w d u.value)
    unfolding colored
    colored_accounts d at p =
        let own : In u.property reported_properties = inr (inr (inl (sym p))) in
        elim (Option-cases (parse_zwave_color w u.value)) [
          | inl unread ↦
              rw (colored, unread)
                (viewed d (parse_zwave_color_temp w u.value)
                  (λ m. CapabilityState.color_temperature m)
                  (λ m h. (at, own, parsed_in_width w u.value m h)))
          | inr ((r, g, b), read) ↦
              rw (colored, read) ((at, own, parsed_in_bytes w u.value r g b read), tt)
        ]

    levelled :
        (d : DeviceId) (view : Option ℕ)
        → lookup (u.node, u.endpoint) by_node ≡ some d
        → u.property ≡ bytes "currentValue"
        → All (Accounts by_node actions u) (elim view [
          | none ↦ []
          | some lvl ↦
              Event.state_reported d (CapabilityState.brightness (zwave_to_pct lvl))
              ∷ Event.state_reported d (CapabilityState.switch (ltb 0 lvl))
              ∷ []
        ])
    levelled d none at p = tt
    levelled d (some lvl) at p =
        ((at, inl (sym p), zwave_to_pct_le lvl), ((at, inl (sym p), tt), tt))

    homed :
        (d : DeviceId) (view : Option ℕ)
        → lookup (u.node, u.endpoint) by_node ≡ some d
        → u.property ≡ bytes "Home Security"
        → All (Accounts by_node actions u) (
            to_list w (
              view >>= λ n.
              occupied w n >>= λ on. some (Event.state_reported d (CapabilityState.occupancy on))))
    homed d none at p = tt
    homed d (some n) at p =
        viewed d (occupied w n) (λ on. CapabilityState.occupancy on)
          (λ on _. (at, inr (inr (inr (inl (sym p)))), tt))

    stateful_accounts :
        (d : DeviceId)
        → lookup (u.node, u.endpoint) by_node ≡ some d
        → All (Accounts by_node actions u) (stateful w d u)
    unfolding stateful
    stateful_accounts d at =
        let class = u.command_class in
        All-if _ (nat_beq class 37 && text_beq u.property (bytes "currentValue")) _ _
          (λ h.
            viewed d (w.as_bool u.value) (λ on. CapabilityState.switch on)
              (λ on _. (at, inl (sym (property_of (nat_beq class 37) u.property _ h)), tt)))
          (λ _.
            All-if _ (nat_beq class 38 && text_beq u.property (bytes "currentValue")) _ _
              (λ h.
                levelled d (w.as_u64 u.value) at (property_of (nat_beq class 38) u.property _ h))
              (λ _.
                All-if _ (nat_beq class 128 && text_beq u.property (bytes "level")) _ _
                  (λ h.
                    viewed d (w.as_u64 u.value) (λ pct. CapabilityState.battery (min pct 100))
                      (λ pct _. (
                        at,
                        inr (inl (sym (property_of (nat_beq class 128) u.property _ h))),
                        omega arith,
                      )))
                  (λ _.
                    All-if _ (nat_beq class 51 && text_beq u.property (bytes "currentColor")) _ _
                      (λ h. colored_accounts d at (property_of (nat_beq class 51) u.property _ h))
                      (λ _.
                        All-if _ (nat_beq class 113 && text_beq u.property (bytes "Home Security"))
                          _ _
                          (λ h.
                            homed d (w.as_u64 u.value) at
                              (property_of (nat_beq class 113) u.property _ h))
                          (λ _. tt)))))

    pressed_accounts :
        (d : DeviceId)
        → lookup (u.node, u.endpoint) by_node ≡ some d
        → u.notification ≡ true
        → u.command_class ≡ 91
        → u.property ≡ bytes "scene"
        → All (Accounts by_node actions u) (pressed w actions d u)
    unfolding pressed
    pressed_accounts d at n c p = bound u.property_key _ (λ key _.
        bound (w.as_u64 u.value >>= λ v. key_attribute_name v) _ (λ attr _.
          bound (lookup d actions) _ (λ declared m.
            let raw = normalize_button key ++ bytes ":" ++ attr in
            bound (lookup raw declared) (λ a. some (Event.action d a))
              (λ a found. ((at, n, c, p, raw, declared, m, found), tt)))))

    pub update_accounts : All (Accounts by_node actions u) (update_to_events w by_node actions u)
    unfolding update_to_events
    update_accounts = elim (Option-cases (lookup (u.node, u.endpoint) by_node)) [
      | inl gone ↦ rw (update_to_events, gone) tt
      | inr (d, at) ↦
          rw (update_to_events, at)
            (All-if _ (nat_beq u.command_class 91 && text_beq u.property (bytes "scene")) _ _
              (λ h.
                All-if _ (not u.notification) _ _ (λ _. tt)
                  (λ n.
                    pressed_accounts d at (ground (arith, n)) (ground (arith, h))
                      (property_of (nat_beq u.command_class 91) u.property _ h)))
              (λ _. stateful_accounts d at))
    ]

  module _ (c : ZwaveClient w) where
    -- Among the updates of one poll, one accounts for the event.
    abbrev pub Sourced : ZwaveAdapter w c → List (ValueUpdate w) → Event → Type 0
    Sourced ad us e = (u : ValueUpdate w) × In u us × Accounts ad.by_node ad.actions u e

    all-Sourced :
        (ad : ZwaveAdapter w c) (us : List (ValueUpdate w))
        → All (Sourced ad us) (events_of w c ad us)
    all-Sourced ad [] = tt
    all-Sourced ad (u ∷ us) =
        All-append (Sourced ad (u ∷ us)) _ _
          (All-map _ _ _ (λ e a. (u, inl refl, a)) (update_accounts ad.by_node ad.actions u))
          (All-map _ _ _ (λ e (v, m, a). (v, inr m, a)) (all-Sourced ad us))

    -- Each event of a tick is accounted for by an update of that poll from the node and endpoint of the
    -- event's device. If it is an action, the update is a notification on the property scene of the Central
    -- Scene class, and the device declares the action. Else it is a report of a state within its range, and the
    -- update is of the properties currentValue, level, currentColor or Home Security, never of a target.
    pub tick-Sourced :
        (ad : ZwaveAdapter w c) → All (Sourced ad (c.poll ad.client).0) (tick w c ad).0
    unfolding tick
    tick-Sourced ad = all-Sourced ad (c.poll ad.client).0
