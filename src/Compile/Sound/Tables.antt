-- ===== src/Compile/Sound/Tables.antt =====
-- The tables of `resolve` in src/compile/resolve.rs: adapters.
use domiform.Base.{
  ℕ, suc, ◌+◌, ◌<◌, ◌≡◌, refl, sym, subst, ap, ◌∙◌, Option, none, some, List, [], ◌∷◌, inl, inr,
  ◌⊎◌, Bool-cases, some_injective, All, arith, length, get_elem?,
}
use domiform.Base.Assoc.{Assoc, insert, lookup, lookup-insert, lookup-insert_same}
use domiform.Base.Text.{Text, text_eq, text_beq, text_beq_iff}
use domiform.Model.Capability.{AdapterIdx}
use domiform.Compile.Diagnostic.{Diagnostic}
use domiform.Compile.Ast.{RawAdapter}
use domiform.Compile.Plugins.{AdapterPlugin, AdapterDef, plugin_for}
use domiform.Compile.Ensures.{
  Ensures, Ensures-pure, Ensures-bind, Ensures-error, Ensures-push, Ensures-weaken,
}
use domiform.Compile.Typed.References.{Any}
use domiform.Compile.Resolve.Adapters.{
  warn, push_all, check_config, resolve_adapter, resolve_adapters,
}

module _ {H : Type 0} where
  pub Ensures-warn : (context code message : Text) → Ensures H Any (warn context code message)
  unfolding warn
  Ensures-warn context code message = Ensures-push _ λ h. tt

  pub Ensures-push_all : (ds : List Diagnostic) → Ensures H Any (push_all ds)
  unfolding push_all
  Ensures-push_all [] = Ensures-pure tt λ h. tt
  Ensures-push_all (d ∷ ds) =
      Ensures-bind {P = Any} (Ensures-push d λ h. tt)
        λ done. Ensures-weaken (λ h. h.0) (λ u h p. p) (Ensures-push_all ds)

-- The indices of a table are below a number.
abbrev pub Below : Assoc Text ℕ → ℕ → Type 0
Below index n = (label : Text) (id : ℕ) → lookup label index ≡ some id → id < n

pub insert-Below :
    (index : Assoc Text ℕ) (n id : ℕ) (label : Text)
    → Below index n
    → id ≡ n
    → Below (insert label id index) (suc n)
insert-Below index n id label below same l k found =
    ground (arith, lookup-insert label l id index, below l k, found, same)

module _ (Value S N : Type 0) (plugins : List (AdapterPlugin Value S N)) where
  abbrev pub HasPlugin : AdapterDef Value S N → Type 0
  HasPlugin adapter = (p : AdapterPlugin Value S N) × (adapter.plugin ≡ some p)

  Ensures-check :
      {H : Type 0} (label : Text) (raw : RawAdapter Value)
      (plugin : Option (AdapterPlugin Value S N))
      → Ensures H
          (λ _. (p : AdapterPlugin Value S N) × (plugin ≡ some p))
          (check_config Value S N plugins plugin label raw)
  unfolding check_config
  Ensures-check label raw none = Ensures-error _ _ _
  Ensures-check label raw (some p) =
      Ensures-weaken (λ h. h) (λ u h q. (p, refl)) (Ensures-push_all _)

  -- What the file's adapter becomes.
  abbrev pub IsAdapterOf : Text → RawAdapter Value → AdapterDef Value S N → Type 0
  IsAdapterOf label raw adapter =
      (adapter.name ≡ label)
      × (adapter.config ≡ raw.config)
      × (adapter.plugin ≡ plugin_for plugins raw.kind)
      × HasPlugin adapter

  -- An adapter for each of the file's, in their order.
  abbrev pub AreAdapters : List (Text × RawAdapter Value) → List (AdapterDef Value S N) → Type 0
  AreAdapters [] [] = Unit
  AreAdapters ((label, raw) ∷ raws) (adapter ∷ adapters) =
      IsAdapterOf label raw adapter × AreAdapters raws adapters
  AreAdapters _ _ = ⊥

  pub AreAdapters-length :
      (raws : List (Text × RawAdapter Value)) (adapters : List (AdapterDef Value S N))
      → AreAdapters raws adapters
      → length adapters ≡ length raws
  AreAdapters-length [] [] h = refl
  AreAdapters-length (r ∷ raws) (a ∷ adapters) h = ap suc (AreAdapters-length raws adapters h.1)
  AreAdapters-length [] (a ∷ adapters) h = elim h [ ]
  AreAdapters-length (r ∷ raws) [] h = elim h [ ]

  -- The place of an adapter of that name.
  abbrev pub Stands : List (AdapterDef Value S N) → Text → AdapterIdx → Type 0
  Stands adapters label i =
      (adapter : AdapterDef Value S N) × (get_elem? adapters i ≡ some adapter)
      × (adapter.name ≡ label)

  -- What a table says beyond another is the place of an adapter of that name.
  abbrev Extends :
      Assoc Text AdapterIdx → Assoc Text AdapterIdx → ℕ → List (AdapterDef Value S N) → Type 0
  Extends index' index count adapters =
      (label : Text) (k : AdapterIdx)
      → lookup label index' ≡ some k
      → (lookup label index ≡ some k) ⊎ ((i : ℕ) × (k ≡ count + i) × Stands adapters label i)

  Extends-later :
      (index' index : Assoc Text AdapterIdx) (count : ℕ) (label : Text)
      (adapter : AdapterDef Value S N) (adapters : List (AdapterDef Value S N))
      → adapter.name ≡ label
      → Extends index' (insert label count index) (suc count) adapters
      → Extends index' index count (adapter ∷ adapters)
  Extends-later index' index count label adapter adapters named later l k found =
      elim (later l k found) [
        | inr (i, at, stands) ↦ inr (suc i, omega (arith, at), stands)
        | inl here ↦ elim (Bool-cases (text_beq label l)) [
          | inl p ↦
              let same : label ≡ l = (text_beq_iff label l).0 p in
              let first : some count ≡ some k =
                sym (lookup-insert_same label count index)
                ∙ ap (λ t. lookup t (insert label count index)) same
                ∙ here in
              inr (0, omega (arith, some_injective first), (adapter, refl, named ∙ same))
          | inr p ↦ inl (ground (arith, lookup-insert label l count index, here, p))
        ]
      ]

  -- Built from nothing, a table has only places of adapters of that name.
  pub Extends-Stands :
      (index' : Assoc Text AdapterIdx) (adapters : List (AdapterDef Value S N))
      → Extends index' [] 0 adapters
      → (label : Text) (k : AdapterIdx) → lookup label index' ≡ some k
      → Stands adapters label k
  unfolding lookup
  Extends-Stands index' adapters new label k found = elim (new label k found) [
    | inl impossible ↦ cc
    | inr (i, at, stands) ↦
        let same : i ≡ k = omega (arith, at) in subst (Stands adapters label) same stands
  ]

  Ensures-adapter :
      {H : Type 0} (label : Text) (raw : RawAdapter Value)
      → Ensures H (IsAdapterOf label raw) (resolve_adapter Value S N plugins label raw)
  unfolding resolve_adapter
  Ensures-adapter label raw =
      Ensures-bind (Ensures-check label raw (plugin_for plugins raw.kind))
        λ done. Ensures-pure _ λ h. (refl, refl, refl, h.1)

  pub Ensures-adapters :
      (raws : List (Text × RawAdapter Value)) {H : Type 0} (count : ℕ)
      (index : Assoc Text AdapterIdx)
      → (H → Below index count)
      → Ensures H
          (λ (adapters, index').
            All HasPlugin adapters
            × Below index' (count + length adapters)
            × AreAdapters raws adapters
            × Extends index' index count adapters)
          (resolve_adapters Value S N plugins raws count index)
  unfolding resolve_adapters
  Ensures-adapters [] count index below =
      Ensures-pure ([], index)
        λ h. (tt, λ l k found. omega (arith, below h l k found), tt, λ l k found. inl found)
  Ensures-adapters ((label, raw) ∷ rest) count index below =
      Ensures-bind (Ensures-adapter label raw) λ adapter.
        Ensures-bind
          (Ensures-adapters rest (suc count) (insert label count index)
            (λ h. insert-Below index count count label (below h.0) refl))
          λ (more, index').
            Ensures-pure (adapter ∷ more, index')
              λ h. (
                (h.0.1.3, h.1.0),
                λ l k found. omega (arith, h.1.1 l k found),
                (h.0.1, h.1.2),
                Extends-later index' index count label adapter more h.0.1.0 h.1.3,
              )
