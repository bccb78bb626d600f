-- ===== src/Compile/Sound/Devices.antt =====
-- The devices of `resolve` in src/compile/resolve.rs.
use domiform.Base.{
  ℕ, suc, ◌+◌, ◌<◌, ◌^◌, ◌≡◌, refl, sym, subst, ap, ◌∙◌, some, List, [], ◌∷◌, ◌++◌, inl, inr,
  append_assoc, append-nil, All, All-append, arith, length, length-append, get_elem?,
  get_elem?-snoc,
}
use domiform.Base.Assoc.{Assoc, lookup}
use domiform.Base.Text.{Text, text_eq}
use domiform.Model.Capability.{AdapterIdx, CapabilityKind}
use domiform.Compile.Ast.{RawDevice}
use domiform.Compile.Lowering.{DeviceDef, parse_capability}
use domiform.Compile.Ensures.{
  Ensures, Ensures-pure, Ensures-bind, Ensures-if, Ensures-expect, Ensures-attempt, Ensures-weaken,
}
use domiform.Compile.Typed.References.{Any}
use domiform.Compile.Resolve.Adapters.{to_u32}
use domiform.Compile.Resolve.Devices.{
  DeviceTables, add_device, def_of, capabilities_of, warn_inert, resolve_raw_device,
  resolve_devices,
}
use domiform.Compile.Sound.Tables.{Ensures-warn, Below, insert-Below}

-- The tables in step: a name stands for a device, which stands at its id and has one of `n` adapters.
pub record TablesFit (n : ℕ) (t : DeviceTables) : Type 0 where
  pub below : Below t.device_index (length t.devices)
  pub bound : All (λ (d : DeviceDef). d.adapter < n) t.devices
  pub placed : (i : ℕ) (d : DeviceDef) → get_elem? t.devices i ≡ some d → d.id ≡ i

add_device-TablesFit :
    (n : ℕ) (t : DeviceTables) (label : Text) (raw : RawDevice) (adapter : AdapterIdx)
    (capabilities : List CapabilityKind)
    → TablesFit n t
    → length t.devices < 2 ^ 32
    → adapter < n
    → TablesFit n (add_device t label raw (some adapter) capabilities)
      × (length (add_device t label raw (some adapter) capabilities).devices
          ≡ suc (length t.devices))
unfolding add_device def_of
add_device-TablesFit n t label raw adapter capabilities fit small known =
    let added = def_of t label raw adapter capabilities in
    let grown : length (t.devices ++ added ∷ []) ≡ suc (length t.devices) =
      omega (arith, length-append t.devices (added ∷ [])) in
    let index : to_u32 (length t.devices) ≡ length t.devices = omega (arith, small) in
    (
      record {
        below = rw grown (insert-Below t.device_index (length t.devices) _ label fit.below index);
        bound = All-append _ t.devices (added ∷ []) fit.bound (known, tt);
        placed = λ i d found. elim (get_elem?-snoc t.devices added i d found) [
          | inl p ↦ fit.placed i d p
          | inr p ↦ ap (λ (e : DeviceDef). e.id) p.1 ∙ index ∙ sym p.0
        ];
      },
      grown,
    )

-- The kinds that the file's words name.
abbrev pub AreKinds : List Text → List CapabilityKind → Type 0
AreKinds [] [] = Unit
AreKinds (cap ∷ caps) (k ∷ ks) = (parse_capability cap ≡ some k) × AreKinds caps ks
AreKinds _ _ = ⊥

Ensures-capabilities :
    {H : Type 0} (context : Text) (caps : List Text)
    → Ensures H (AreKinds caps) (capabilities_of context caps)
unfolding capabilities_of
Ensures-capabilities context [] = Ensures-pure [] λ h. tt
Ensures-capabilities context (cap ∷ caps) =
    Ensures-bind
      (Ensures-attempt {Q = λ k. parse_capability cap ≡ some k}
        (Ensures-expect context _ _ _ λ k eq h. eq))
      λ k.
        Ensures-bind (Ensures-weaken (λ h. h.0) (λ u h p. p) (Ensures-capabilities context caps))
          λ ks. Ensures-pure _ λ h. let (c, eq, known) = h.0.1 in rw eq (known, h.1)

Ensures-inert : {H : Type 0} (label : Text) (raw : RawDevice) → Ensures H Any (warn_inert label raw)
unfolding warn_inert
Ensures-inert label raw = Ensures-if _ (Ensures-warn _ _ _) (Ensures-pure tt λ h. tt)

module _ (adapter_index : Assoc Text AdapterIdx) where
  -- What the file's device becomes: it is bound to the adapter that the file names.
  abbrev pub IsDeviceOf : Text → RawDevice → DeviceDef → Type 0
  IsDeviceOf label raw d =
      (d.name ≡ label)
      × (lookup raw.adapter adapter_index ≡ some d.adapter)
      × AreKinds raw.capabilities d.capabilities

  -- A device for each of the file's, in their order.
  abbrev pub AreDevices : List (Text × RawDevice) → List DeviceDef → Type 0
  AreDevices [] [] = Unit
  AreDevices ((label, raw) ∷ raws) (d ∷ ds) = IsDeviceOf label raw d × AreDevices raws ds
  AreDevices _ _ = ⊥

  -- Devices after those at hand.
  abbrev pub Adds : List (Text × RawDevice) → List DeviceDef → List DeviceDef → Type 0
  Adds raws before after = (ds : List DeviceDef) × (after ≡ before ++ ds) × AreDevices raws ds

  pub Adds-AreDevices :
      (raws : List (Text × RawDevice)) (after : List DeviceDef)
      → Adds raws [] after
      → AreDevices raws after
  Adds-AreDevices raws after (ds, eq, are) = subst (AreDevices raws) (sym eq) are

  Adds-trans :
      (label : Text) (raw : RawDevice) (raws : List (Text × RawDevice))
      (before between after : List DeviceDef)
      → Adds ((label, raw) ∷ []) before between
      → Adds raws between after
      → Adds ((label, raw) ∷ raws) before after
  Adds-trans label raw raws before between after (d ∷ [], eq, is) (ds, eq', are) =
      (d ∷ ds, eq' ∙ ap (λ xs. xs ++ ds) eq ∙ append_assoc before (d ∷ []) ds, (is.0, are))
  Adds-trans label raw raws before between after ([], eq, is) later = elim is [ ]
  Adds-trans label raw raws before between after (d ∷ e ∷ ds, eq, is) later = elim is.1 [ ]

  module _ (n : ℕ) where
    Ensures-raw_device :
        {H : Type 0} (t : DeviceTables) (label : Text) (raw : RawDevice)
        → (H → Below adapter_index n × TablesFit n t × (length t.devices < 2 ^ 32))
        → Ensures H
            (λ t'.
              TablesFit n t'
              × (length t'.devices ≡ suc (length t.devices))
              × Adds ((label, raw) ∷ []) t.devices t'.devices)
            (resolve_raw_device adapter_index t label raw)
    unfolding resolve_raw_device add_device def_of
    Ensures-raw_device t label raw given =
        Ensures-bind
          (Ensures-attempt {Q = λ idx. lookup raw.adapter adapter_index ≡ some idx}
            (Ensures-expect _ _ _ _ λ idx eq h. eq))
          λ adapter. Ensures-bind (Ensures-capabilities _ raw.capabilities) λ capabilities.
            Ensures-bind (Ensures-inert label raw) λ done. Ensures-pure _ λ h.
              let (idx, eq, found) = h.0.0.1 in
              let (below, fit, small) = given h.0.0.0 in
              let (fit', longer) =
                add_device-TablesFit n t label raw idx capabilities fit small (below _ idx found) in
              rw eq (
                fit',
                longer,
                (def_of t label raw idx capabilities ∷ [], refl, ((refl, found, h.0.1), tt)),
              )

    pub Ensures-devices :
        (raws : List (Text × RawDevice)) {H : Type 0} (t : DeviceTables)
        → (H → Below adapter_index n × TablesFit n t × (length t.devices + length raws < 2 ^ 32))
        → Ensures H
            (λ t'.
              TablesFit n t'
              × (length t'.devices ≡ length t.devices + length raws)
              × Adds raws t.devices t'.devices)
            (resolve_devices adapter_index raws t)
    unfolding resolve_devices
    Ensures-devices [] t given =
        Ensures-pure t λ h. ((given h).1, omega arith, ([], sym (append-nil t.devices), tt))
    Ensures-devices ((label, raw) ∷ rest) t given =
        Ensures-bind
          (Ensures-raw_device t label raw
            (λ h. ((given h).0, (given h).1, omega (arith, (given h).2))))
          λ t'.
            Ensures-weaken (λ h. h)
              (λ t'' h p. (
                p.0,
                omega (arith, p.1, h.1.1),
                Adds-trans label raw rest t.devices t'.devices t''.devices h.1.2 p.2,
              ))
              (Ensures-devices rest t'
                (λ h. ((given h.0).0, h.1.0, omega (arith, (given h.0).2, h.1.1))))
