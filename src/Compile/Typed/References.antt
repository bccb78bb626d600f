-- ===== src/Compile/Typed/References.antt =====
-- The checks of names, capabilities and scalars in src/compile/lower.rs: what they ensure.
use domiform.Base.{
  ℕ, ◌+◌, ◌*◌, ◌/◌, ◌<◌, ◌≤◌, ◌≡◌, refl, true, ◌||◌, ◌&&◌, Option, none, some, inl, inr, Bool-cases,
  Option-cases, arith, get_elem?, get_elem?-some, find-some, In, length, leb, nat_beq_iff, nat_eq,
  ◌==◌, min,
}
use native.Mathlib.Nat.{le-div_iff_mul-le, div-le_of_le-mul}
use domiform.Base.Text.{Text, text_eq}
use domiform.Model.Capability.{CapabilityKind, DeviceId, is_bool, is_numeric}
use domiform.Color.Hex.{hex_to_rgb-bytes}
use domiform.Compile.Ast.{Yaml, Parsed, parsed, refused}
use domiform.Compile.Scalars.{duration_of-lt, hour_minute-lt}
use domiform.Compile.Conditions.{parse_color, parse_time, object_color-bytes}
use domiform.Compile.Commands.{parse_duration, parse_transition, mireds_of}
use domiform.Compile.Ensures.{
  Ensures, Ensures-pure, Ensures-bind, Ensures-fail, Ensures-expect, Ensures-error, Ensures-lift,
}
use domiform.Compile.Lowering.{
  Scope, entry_of, single_entry, as_name, as_flag, payload, accept, resolve_device, declares,
  require_cap, resolve_event, bool_capability, numeric_capability, any_capability, parse_cmp_op,
}
use domiform.Compile.Typed.Defs.{IsScope, Declares, Emits, IsByte, IsU64, IsTransition}

kelvin-mireds :
    (k : ℕ)
    → 1000 ≤ k
    → k ≤ 10000
    → (100 ≤ min (1000000 / k) 65535) × (min (1000000 / k) 65535 ≤ 1000)
kelvin-mireds k low high =
    let least : 100 ≤ 1000000 / k =
      (le-div_iff_mul-le {k = k} {x = 100} {y = 1000000} (omega arith)).1 (omega arith) in
    let most : 1000000 / k ≤ 1000 = div-le_of_le-mul k (omega arith) in
    (omega (arith, least), omega (arith, most))

-- Nothing is claimed of a result.
abbrev pub Any : {A : Type 0} → A → Type 0
Any a = Unit

module _ {H : Type 0} (context : Text) where
  pub Ensures-numeric :
      (label : Text) → Ensures H (λ k. is_numeric k ≡ true) (numeric_capability context label)
  unfolding numeric_capability any_capability
  Ensures-numeric label = Ensures-bind (Ensures-expect context {Q = Any} _ _ _ (λ k eq h. tt)) λ k.
      elim (Bool-cases (is_numeric k)) [
        | inl p ↦ rw p (Ensures-pure k (λ h. p))
        | inr p ↦ rw p (Ensures-fail context _ _)
      ]

  pub Ensures-bool :
      (label : Text) → Ensures H (λ k. is_bool k ≡ true) (bool_capability context label)
  unfolding bool_capability any_capability
  Ensures-bool label = Ensures-bind (Ensures-expect context {Q = Any} _ _ _ (λ k eq h. tt)) λ k.
      elim (Bool-cases (is_bool k)) [
        | inl p ↦ rw p (Ensures-pure k (λ h. p))
        | inr p ↦ rw p (Ensures-fail context _ _)
      ]

  pub Ensures-any_capability : (label : Text) → Ensures H Any (any_capability context label)
  unfolding any_capability
  Ensures-any_capability label = Ensures-expect context _ _ _ λ k eq h. tt

  pub Ensures-op : (s : Text) → Ensures H Any (parse_cmp_op context s)
  unfolding parse_cmp_op
  Ensures-op s = Ensures-expect context _ _ _ λ op eq h. tt

  pub Ensures-time : (s : Text) → Ensures H (λ minute. minute < 1440) (parse_time context s)
  unfolding parse_time
  Ensures-time s =
      Ensures-bind (Ensures-expect context _ _ _ λ (h, m) eq held. hour_minute-lt s h m eq)
        λ (h, m). Ensures-pure (h * 60 + m) λ held. omega (arith, held.1)

  pub Ensures-duration : (s : Text) → Ensures H IsU64 (parse_duration context s)
  unfolding parse_duration
  Ensures-duration s = Ensures-expect context _ _ _ λ ms eq h. duration_of-lt s ms eq

  pub Ensures-parse_transition :
      (o : Option Text) → Ensures H IsTransition (parse_transition context o)
  unfolding parse_transition
  Ensures-parse_transition none = Ensures-pure none λ h. tt
  Ensures-parse_transition (some s) =
      Ensures-bind (Ensures-duration s) λ after. Ensures-pure (some after) λ h. h.1

  pub Ensures-mireds :
      (kelvin mireds : Option ℕ)
      → Ensures H (λ m. (100 ≤ m) × (m ≤ 1000)) (mireds_of context kelvin mireds)
  unfolding mireds_of
  Ensures-mireds none none = Ensures-fail context _ _
  Ensures-mireds (some k) (some m) = Ensures-fail context _ _
  Ensures-mireds (some k) none = elim (Bool-cases (leb 1000 k && leb k 10000)) [
    | inl p ↦ rw p (Ensures-pure _ (λ h. kelvin-mireds k (ground (arith, p)) (ground (arith, p))))
    | inr p ↦ rw p (Ensures-fail context _ _)
  ]
  Ensures-mireds none (some m) = elim (Bool-cases (leb 100 m && leb m 1000)) [
    | inl p ↦ rw p (Ensures-pure m (λ h. ground (arith, p)))
    | inr p ↦ rw p (Ensures-fail context _ _)
  ]

module _ (y : Yaml) {H : Type 0} (context : Text) where
  pub Ensures-single_entry :
      (v : y.Value) (node : Text)
      → Ensures H (λ e. entry_of y v ≡ some e) (single_entry y context v node)
  unfolding single_entry
  Ensures-single_entry v node = Ensures-expect context _ _ _ λ e eq h. eq

  pub Ensures-as_name : (v : y.Value) (node : Text) → Ensures H Any (as_name y context v node)
  unfolding as_name
  Ensures-as_name v node = Ensures-expect context _ _ _ λ s eq h. tt

  pub Ensures-as_flag : (v : y.Value) (node : Text) → Ensures H Any (as_flag y context v node)
  unfolding as_flag
  Ensures-as_flag v node = Ensures-expect context _ _ _ λ b eq h. tt

  Ensures-accept :
      {A : Type 0} (p : Parsed A) (node : Text) → Ensures H Any (accept y context p node)
  unfolding accept
  Ensures-accept (parsed a) node = Ensures-pure a λ h. tt
  Ensures-accept (refused e) node = Ensures-fail context _ _

  pub Ensures-color :
      (v : y.Value)
      → Ensures H (λ (r, g, b). IsByte r × IsByte g × IsByte b) (parse_color y context v)
  unfolding parse_color
  Ensures-color v = elim (Option-cases (y.as_str v)) [
    | inl p ↦
        rw (parse_color, p)
          (Ensures-expect context _ _ _ λ (r, g, b) eq h. object_color-bytes y v r g b eq)
    | inr (s, p) ↦
        rw (parse_color, p)
          (Ensures-expect context _ _ _ λ (r, g, b) eq h. hex_to_rgb-bytes s r g b eq)
  ]

module _ (y : Yaml) {H : Type 0} (context : Text) where
  pub Ensures-payload :
      {A : Type 0} (decode : y.Value → Parsed A) (v : y.Value) (node : Text)
      → Ensures H Any (payload y context decode v node)
  unfolding payload
  Ensures-payload decode v node =
      Ensures-bind (Ensures-accept y context (y.apply_merge v) node)
        λ merged. Ensures-accept y context (decode merged) node

module _ (scope : Scope) {H : Type 0} (wf : H → IsScope scope) (context : Text) where
  pub Ensures-device :
      (label : Text)
      → Ensures H (λ id. id < length scope.devices) (resolve_device scope context label)
  unfolding resolve_device
  Ensures-device label = Ensures-expect context _ _ _ λ id eq h. (wf h).device_below label id eq

  pub Ensures-require :
      (id : DeviceId) (label : Text) (cap : CapabilityKind) (usage : Text)
      → (H → id < length scope.devices)
      → Ensures H (λ _. Declares scope id cap) (require_cap scope context id label cap usage)
  unfolding require_cap
  Ensures-require id label cap usage below =
      elim (Bool-cases (id == scope.clock_device || declares scope id cap)) [
        | inl p ↦ rw p (
            Ensures-pure tt (λ h.
              ground (arith, p, below h, (wf h).clock_last, nat_beq_iff id scope.clock_device)))
        | inr p ↦ rw p (Ensures-error context _ _)
      ]

  pub Ensures-event :
      (id : DeviceId) (dev_name event : Text)
      → (H → id < length scope.devices)
      → Ensures H (Emits scope id) (resolve_event scope context id dev_name event)
  unfolding resolve_event
  Ensures-event id dev_name event below =
      Ensures-bind {P = λ dev. get_elem? scope.devices id ≡ some dev}
        (Ensures-lift
          λ h. let (dev, eq) = get_elem?-some scope.devices id (below h) in (dev, eq, eq))
        λ dev.
          Ensures-bind {P = λ e. In e dev.events}
            (Ensures-expect context _ _ _ λ e eq h. find-some _ dev.events e eq)
            λ e. Ensures-pure e.id λ h. (dev, h.0.1, e, h.1, refl)
