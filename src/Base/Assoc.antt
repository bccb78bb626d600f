-- ===== src/Base/Assoc.antt =====
-- Maps with unique keys as association lists: what `HashMap` promises of insert, get and remove.
use mathlib.Core.Path.{◌≡◌}
use mathlib.Core.Logic.{◌↔◌}
use mathlib.Core.List.{List, [], ◌∷◌}
use mathlib.Core.Option.{Option, none, some}
use native.Mathlib.Omega.{arith}
use domiform.Base.Lists.{In}
use domiform.Base.Tests.{Eq, if◌then◌else◌}

abbrev pub Assoc {ℓ κ} : Type ℓ → Type κ → Type (ℓ ⊔ κ)
Assoc K V = List (K × V)

module _ {ℓ κ} {K : Type ℓ} {V : Type κ} ⦃e : Eq K⦄ where
  unfoldable pub lookup : K → Assoc K V → Option V
  lookup k [] = none
  lookup k ((j, v) ∷ m) = let rest = lookup k m in if e.beq j k then some v else rest

  unfoldable pub remove : K → Assoc K V → Assoc K V
  remove k [] = []
  remove k ((j, v) ∷ m) = let rest = remove k m in if e.beq j k then rest else (j, v) ∷ rest

  unfoldable pub insert : K → V → Assoc K V → Assoc K V
  unfolding remove
  insert k v m = (k, v) ∷ remove k m

  pub lookup-remove :
      (k j : K) (m : Assoc K V) → lookup j (remove k m) ≡ (if e.beq k j then none else lookup j m)
  unfolding lookup remove
  lookup-remove k j [] = ground arith
  lookup-remove k j ((i, v) ∷ m) =
      ground (arith, lookup-remove k j m, e.beq_iff i k, e.beq_iff i j, e.beq_iff k j)

  pub lookup-insert :
      (k j : K) (v : V) (m : Assoc K V)
      → lookup j (insert k v m) ≡ (if e.beq k j then some v else lookup j m)
  unfolding insert lookup
  lookup-insert k j v m = ground (arith, lookup-remove k j m)

  pub lookup-insert_same : (k : K) (v : V) (m : Assoc K V) → lookup k (insert k v m) ≡ some v
  lookup-insert_same k v m = ground (arith, lookup-insert k k v m, e.beq_iff k k)

  -- Each key stands once.
  unfoldable pub IsMap : Assoc K V → Type κ
  unfolding lookup
  IsMap [] = Unit
  IsMap ((k, v) ∷ m) = (lookup k m ≡ none) × IsMap m

  pub remove-IsMap : (k : K) (m : Assoc K V) → IsMap m → IsMap (remove k m)
  unfolding IsMap remove
  remove-IsMap k [] h = h
  remove-IsMap k ((j, v) ∷ m) h =
      ground (arith, remove-IsMap k m h.1, lookup-remove k j m, e.beq_iff j k, e.beq_iff k j)

  pub insert-IsMap : (k : K) (v : V) (m : Assoc K V) → IsMap m → IsMap (insert k v m)
  unfolding IsMap insert
  insert-IsMap k v m h = ground (arith, remove-IsMap k m h, lookup-remove k k m, e.beq_iff k k)

module _ {K V : Type 0} ⦃e : Eq K⦄ where
  pub In-iff_lookup :
      (k : K) (v : V) (m : Assoc K V) → IsMap m → In (k, v) m ↔ (lookup k m ≡ some v)
  unfolding IsMap lookup
  In-iff_lookup k v [] h = ground arith
  In-iff_lookup k v ((j, w) ∷ m) h = ground (arith, In-iff_lookup k v m h.1, e.beq_iff j k)
