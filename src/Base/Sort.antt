-- ===== src/Base/Sort.antt =====
-- Sorting by a total order. A list and its rearrangements have the same sorted form, so the code's
-- own sort (stable, in place) gives this one.
use mathlib.Core.Path.{◌≡◌, refl, ap₂, ◌∙◌}
use mathlib.Core.Logic.{◌⊎◌, ◌↔◌, ∥∥₁_elim}
use mathlib.Core.Bool.{Bool, true}
use mathlib.Core.List.{List, [], ◌∷◌, Perm, Permᴰ}
use native.Mathlib.Omega.{arith}
use domiform.Base.Tests.{if◌then◌else◌}
use domiform.Base.Lists.{In}

pub record TotalOrder {ℓ} {A : Type ℓ} (leb : A → A → Bool) : Type ℓ where
  pub total : (a b : A) → (leb a b ≡ true) ⊎ (leb b a ≡ true)
  pub antisym : (a b : A) → leb a b ≡ true → leb b a ≡ true → a ≡ b
  pub trans : (a b c : A) → leb a b ≡ true → leb b c ≡ true → leb a c ≡ true

module _ {ℓ} {A : Type ℓ} (leb : A → A → Bool) where
  unfoldable pub place : A → List A → List A
  place a [] = a ∷ []
  place a (b ∷ xs) = let rest = b ∷ place a xs in if leb a b then a ∷ b ∷ xs else rest

  unfoldable pub sort : List A → List A
  unfolding place
  sort [] = []
  sort (a ∷ xs) = place a (sort xs)

module _ {ℓ} {A : Type ℓ} {leb : A → A → Bool} (o : TotalOrder leb) where
  place_comm : (a b : A) (xs : List A) → place leb a (place leb b xs) ≡ place leb b (place leb a xs)
  unfolding place
  place_comm a b [] = ground (arith, o.total a b, o.antisym a b)
  place_comm a b (c ∷ xs) = ground (
    arith,
    place_comm a b xs,
    o.total a b,
    o.antisym a b,
    o.total a c,
    o.total b c,
    o.trans a b c,
    o.trans b a c,
    o.trans a c b,
    o.trans b c a,
    o.antisym a c,
    o.antisym b c,
  )

  sort-permᴰ : {xs ys : List A} → Permᴰ xs ys → sort leb xs ≡ sort leb ys
  unfolding sort
  sort-permᴰ Permᴰ.nil = refl
  sort-permᴰ (Permᴰ.cons e p) = ap₂ (place leb) e (sort-permᴰ p)
  sort-permᴰ (Permᴰ.swap {a = a} {b = b} {l = l} e f) =
      place_comm a b (sort leb l) ∙ ap₂ (λ x y. place leb x (place leb y (sort leb l))) f e
  sort-permᴰ (Permᴰ.trans p q) = sort-permᴰ p ∙ sort-permᴰ q

  pub sort-perm : IsSet A → {xs ys : List A} → Perm xs ys → sort leb xs ≡ sort leb ys
  sort-perm A_set {xs} {ys} p =
      let lists : IsSet (List A) = hlevel A_set in
      ∥∥₁_elim p (lists (sort leb xs) (sort leb ys)) sort-permᴰ

-- A list that is in order.
module _ {ℓ} {A : Type ℓ} (leb : A → A → Bool) where
  abbrev pub Below : A → List A → Type 0
  Below a [] = Unit
  Below a (x ∷ xs) = (leb a x ≡ true) × Below a xs

  abbrev pub IsSorted : List A → Type 0
  IsSorted [] = Unit
  IsSorted (x ∷ xs) = Below x xs × IsSorted xs

module _ {ℓ} {A : Type ℓ} {leb : A → A → Bool} (o : TotalOrder leb) where
  Below-trans : (a b : A) (xs : List A) → leb a b ≡ true → Below leb b xs → Below leb a xs
  Below-trans a b [] h k = tt
  Below-trans a b (x ∷ xs) h k = (o.trans a b x h k.0, Below-trans a b xs h k.1)

  Below-place :
      (a b : A) (xs : List A) → leb a b ≡ true → Below leb a xs → Below leb a (place leb b xs)
  unfolding place
  Below-place a b [] h k = (h, tt)
  Below-place a b (x ∷ xs) h k = ground (arith, Below-place a b xs h k.1)

  place-IsSorted : (a : A) (xs : List A) → IsSorted leb xs → IsSorted leb (place leb a xs)
  unfolding place
  place-IsSorted a [] h = (tt, tt)
  place-IsSorted a (x ∷ xs) h =
      ground (arith, place-IsSorted a xs h.1, o.total a x, Below-trans a x xs, Below-place x a xs)

  pub sort-IsSorted : (xs : List A) → IsSorted leb (sort leb xs)
  unfolding sort
  sort-IsSorted [] = tt
  sort-IsSorted (x ∷ xs) = place-IsSorted x (sort leb xs) (sort-IsSorted xs)

module _ {A : Type 0} (leb : A → A → Bool) where
  In-place : (a b : A) (xs : List A) → In a (place leb b xs) ↔ In a (b ∷ xs)
  unfolding place
  In-place a b [] = (λ h. h, λ h. h)
  In-place a b (x ∷ xs) = ground (arith, In-place a b xs)

  pub In-sort : (a : A) (xs : List A) → In a (sort leb xs) ↔ In a xs
  unfolding sort
  In-sort a [] = (λ h. h, λ h. h)
  In-sort a (x ∷ xs) = ground (arith, In-place a x (sort leb xs), In-sort a xs)
