-- ===== src/Compile/Build/Slots.antt =====
-- The adapters' slots in `build_engine_full` of src/compile/mod.rs.
use domiform.Base.{
  ℕ, suc, ◌+◌, ◌≤◌, ◌≡◌, ◌⊎◌, refl, ap, ◌∙◌, true, false, Option, none, some, List, [], ◌∷◌, ◌++◌,
  ◌>>=◌, inl, inr, zero, sym, subst, get_elem?, append_assoc, append-nil, arith, length,
  length-append, get_elem?-some, All,
}
use domiform.Base.Text.{Text}
use domiform.Model.Capability.{AdapterIdx}
use domiform.Engine.Parts.{Engine, Adapter, add_adapter}
use domiform.Compile.Lowering.{DeviceDef}
use domiform.Compile.Plugins.{AdapterPlugin, AdapterDef, Polarity, southbound, northbound}
use domiform.Compile.Resolve.Lints.{is_northbound}
use domiform.Compile.Resolve.Config.{CompiledConfig}
use domiform.Compile.Build.Engine.{
  group, build_adapter, build_adapters, exposed_devices, with_northbound, no_slot,
}
use domiform.Compile.Build.Groups.{served}

-- An engine that has got more adapters, and is otherwise as it was.
pub record IsGrown {S N : Type 0} (e e' : Engine S N) : Type 0 where
  pub ruled : e'.rules ≡ e.rules
  pub stored : e'.state ≡ e.state
  pub queued : e'.queue ≡ e.queue
  pub routed : e'.device_to_adapter ≡ e.device_to_adapter
  pub pending : e'.pending_for ≡ e.pending_for
  pub retried : e'.retries ≡ e.retries
  pub kept : (more : List (Adapter S)) × (e'.adapters ≡ e.adapters ++ more)

IsGrown-trans :
    {S N : Type 0} (e e' e'' : Engine S N) → IsGrown e e' → IsGrown e' e'' → IsGrown e e''
IsGrown-trans e e' e'' g h = record {
  ruled = h.ruled ∙ g.ruled;
  stored = h.stored ∙ g.stored;
  queued = h.queued ∙ g.queued;
  routed = h.routed ∙ g.routed;
  pending = h.pending ∙ g.pending;
  retried = h.retried ∙ g.retried;
  kept =
      let (more, eq) = g.kept in
      let (later, eq') = h.kept in
      (more ++ later, eq' ∙ ap (λ xs. xs ++ later) eq ∙ append_assoc e.adapters more later);
}

Polarity-cases : (p : Polarity) → (p ≡ southbound) ⊎ (p ≡ northbound)
Polarity-cases southbound = inl refl
Polarity-cases northbound = inr refl

get_elem?-append :
    {A : Type 0} (xs ys : List A) (i : ℕ) (a : A)
    → get_elem? xs i ≡ some a
    → get_elem? (xs ++ ys) i ≡ some a
get_elem?-append [] ys i a found = cc
get_elem?-append (x ∷ xs) ys zero a found = found
get_elem?-append (x ∷ xs) ys (suc i) a found = get_elem?-append xs ys i a found

pub get_elem?-last :
    {A : Type 0} (xs : List A) (a : A) → get_elem? (xs ++ a ∷ []) (length xs) ≡ some a
get_elem?-last [] a = refl
get_elem?-last (x ∷ xs) a = get_elem?-last xs a

module _ (Float Value S N : Type 0) (devices : List DeviceDef) where
  -- The slot of the adapter in place `i`: there the engine has what its plugin built of its configuration and
  -- its own devices. A northbound adapter has no slot.
  abbrev pub IsSlot : List (Adapter S) → ℕ → AdapterDef Value S N → AdapterIdx → Type 0
  IsSlot built i adapter slot =
      ((is_northbound adapter.plugin ≡ false)
        × (p : AdapterPlugin Value S N) × (adapter.plugin ≡ some p)
        × (get_elem? built slot ≡ some (p.build adapter.config (served devices i))))
      ⊎ ((is_northbound adapter.plugin ≡ true) × (slot ≡ no_slot))

  abbrev pub AreSlots :
      List (Adapter S) → ℕ → List (AdapterDef Value S N) → List AdapterIdx → Type 0
  AreSlots built i [] [] = Unit
  AreSlots built i (adapter ∷ adapters) (slot ∷ slots) =
      IsSlot built i adapter slot × AreSlots built (suc i) adapters slots
  AreSlots built i _ _ = ⊥

  pub IsSlot-later :
      (built more : List (Adapter S)) (i : ℕ) (adapter : AdapterDef Value S N) (slot : AdapterIdx)
      → IsSlot built i adapter slot
      → IsSlot (built ++ more) i adapter slot
  IsSlot-later built more i adapter slot (inl (south, p, plugged, found)) =
      inl (south, p, plugged, get_elem?-append built more slot _ found)
  IsSlot-later built more i adapter slot (inr h) = inr h

  with_northbound-IsGrown :
      (o : Option N) (e : Engine S N) → IsGrown e (with_northbound Float Value S N o e)
  with_northbound-IsGrown none e = record {
    ruled = refl;
    stored = refl;
    queued = refl;
    routed = refl;
    pending = refl;
    retried = refl;
    kept = ([], sym (append-nil e.adapters));
  }
  with_northbound-IsGrown (some nb) e = record {
    ruled = refl;
    stored = refl;
    queued = refl;
    routed = refl;
    pending = refl;
    retried = refl;
    kept = ([], sym (append-nil e.adapters));
  }

  with_northbound-length :
      (o : Option N) (e : Engine S N)
      → length (with_northbound Float Value S N o e).adapters ≤ suc (length e.adapters)
  with_northbound-length none e = omega arith
  with_northbound-length (some nb) e = omega arith

  module _ (cfg : CompiledConfig Float Value S N) (dir : Text) where
    abbrev Built : ℕ → AdapterDef Value S N → List DeviceDef → Engine S N → Type 0
    Built i adapter group e =
        (e' : Engine S N) × (slot : AdapterIdx) × (build_adapter Float Value S N cfg dir adapter
            group e
          ≡ some (e', slot))
        × IsGrown e e'
        × (length e'.adapters ≤ suc (length e.adapters))
        × IsSlot e'.adapters i adapter slot

    build_adapter-slot :
        (i : ℕ) (adapter : AdapterDef Value S N) (e : Engine S N) (p : AdapterPlugin Value S N)
        → adapter.plugin ≡ some p
        → Built i adapter (served devices i) e
    unfolding build_adapter
    build_adapter-slot i adapter e p eq = elim (Polarity-cases p.polarity) [
      | inl q ↦
          let made = p.build adapter.config (served devices i) in
          (
            add_adapter e made,
            length e.adapters,
            rw (build_adapter, eq, ◌>>=◌, q) refl,
            record {
              ruled = refl;
              stored = refl;
              queued = refl;
              routed = refl;
              pending = refl;
              retried = refl;
              kept = (made ∷ [], refl);
            },
            omega (arith, length-append e.adapters (made ∷ [])),
            inl (rw (eq, is_northbound, q) refl, p, eq, get_elem?-last e.adapters made),
          )
      | inr q ↦
          let exposed = exposed_devices Float Value S N cfg (p.expose_spec adapter.config) in
          let mirror = p.build_northbound adapter.config exposed adapter.name dir in
          (
            with_northbound Float Value S N mirror e,
            no_slot,
            rw (build_adapter, eq, ◌>>=◌, q) refl,
            with_northbound-IsGrown mirror e,
            with_northbound-length mirror e,
            inr (rw (eq, is_northbound, q) refl, refl),
          )
    ]

    pub build_adapters-slots :
        (adapters : List (AdapterDef Value S N)) (groups : List (List DeviceDef)) (i : ℕ)
        (e : Engine S N)
        → i + length adapters ≤ length groups
        → ((k : ℕ) (g : List DeviceDef) → get_elem? groups k ≡ some g → g ≡ served devices k)
        → All
            (λ (adapter : AdapterDef Value S N).
              (p : AdapterPlugin Value S N) × (adapter.plugin ≡ some p))
            adapters
        → (e' : Engine S N) × (slots : List AdapterIdx) × (build_adapters Float Value S N cfg dir
              adapters groups i e
            ≡ some (e', slots))
          × IsGrown e e'
          × (length e'.adapters ≤ length e.adapters + length adapters)
          × AreSlots e'.adapters i adapters slots
    unfolding build_adapters
    build_adapters-slots [] groups i e room own h =
        (e, [], refl, with_northbound-IsGrown none e, omega arith, tt)
    build_adapters-slots (adapter ∷ rest) groups i e room own h =
        let (group, there) = get_elem?-some groups i (omega (arith, room)) in
        let placed : get_elem? groups i ≡ some (served devices i) =
          there ∙ ap some (own i group there) in
        let (e1, slot, done, grown, few, is_slot) = build_adapter-slot i adapter e h.0.0 h.0.1 in
        let (e2, slots, more, grown', few', are) =
          build_adapters-slots rest groups (suc i) e1 (omega (arith, room)) own h.1 in
        let (later, eq) = grown'.kept in
        (
          e2,
          slot ∷ slots,
          rw (build_adapters, placed, ◌>>=◌, done, more) refl,
          IsGrown-trans e e1 e2 grown grown',
          omega (arith, few, few'),
          (
            subst (λ xs. IsSlot xs i adapter slot) (sym eq)
                (IsSlot-later e1.adapters later i adapter slot is_slot),
            are,
          ),
        )
