-- ===== src/Adapters/Scheduler/Order.antt =====
-- The order of a tick of src/adapters/scheduler.rs, and the layout of its map.
use domiform.Base.{
  ℕ, zero, suc, ◌<◌, some, get_elem?, subst, ◌≡◌, ◌⊎◌, refl, true, ap, arith, List, [], ◌∷◌, map,
  filter, Bool, false, if◌then◌else◌,
}
use mathlib.Core.List.{Perm, Permᴰ}
use mathlib.Core.Logic.{∥∥₁_map}
use domiform.Base.Text.{text_order, text_leb}
use domiform.Base.Sort.{TotalOrder, Below, IsSorted, sort-perm, sort-IsSorted}
use domiform.Model.Capability.{Millis}
use domiform.Model.Command.{TimerKey}
use domiform.Adapters.Scheduler.Defs.{SchedulerAdapter, entry_leb, is_due, swap, due, tick, elapsed}

entry_total : (p q : Millis × TimerKey) → (entry_leb p q ≡ true) ⊎ (entry_leb q p ≡ true)
unfolding entry_leb
entry_total (t, k) (u, l) = ground (arith, text_order.total k l)

entry_antisym : (p q : Millis × TimerKey) → entry_leb p q ≡ true → entry_leb q p ≡ true → p ≡ q
unfolding entry_leb
entry_antisym (t, k) (u, l) h j = ground (arith, text_order.antisym k l)

entry_trans :
    (p q r : Millis × TimerKey) → entry_leb p q ≡ true → entry_leb q r ≡ true → entry_leb p r ≡ true
unfolding entry_leb
entry_trans (t, k) (u, l) (v, m) h j = ground (arith, text_order.trans k l m)

pub entry_order : TotalOrder entry_leb
entry_order = record { total = entry_total; antisym = entry_antisym; trans = entry_trans }

perm_refl : {A : Type 0} (xs : List A) → Permᴰ xs xs
perm_refl [] = Permᴰ.nil
perm_refl (x ∷ xs) = Permᴰ.cons refl (perm_refl xs)

module _ {A B : Type 0} (f : A → B) where
  perm_keep :
      (t : Bool) (a : A) (xs ys : List A)
      → Permᴰ (map f xs) (map f ys)
      → Permᴰ (map f (if t then a ∷ xs else xs)) (map f (if t then a ∷ ys else ys))
  perm_keep true a xs ys d = Permᴰ.cons refl d
  perm_keep false a xs ys d = d

  perm_swap :
      (t u : Bool) (a b : A) (xs : List A)
      → let with_a = λ (ys : List A). if t then a ∷ ys else ys in
        let with_b = λ (ys : List A). if u then b ∷ ys else ys in
        Permᴰ (map f (with_a (with_b xs))) (map f (with_b (with_a xs)))
  perm_swap true true a b xs = Permᴰ.swap refl refl
  perm_swap true false a b xs = perm_refl (map f (a ∷ xs))
  perm_swap false true a b xs = perm_refl (map f (b ∷ xs))
  perm_swap false false a b xs = perm_refl (map f xs)

perm-filter-map :
    {A B : Type 0} (p : A → Bool) (f : A → B) {xs ys : List A}
    → Permᴰ xs ys
    → Permᴰ (map f (filter p xs)) (map f (filter p ys))
perm-filter-map p f Permᴰ.nil = Permᴰ.nil
perm-filter-map p f (Permᴰ.cons {a = a} e d) =
    rw (← e) (perm_keep f (p a) a _ _ (perm-filter-map p f d))
perm-filter-map p f (Permᴰ.swap {a = a} {b = b} {l = l} e e') =
    rw (← e, ← e') (perm_swap f (p a) (p b) a b (filter p l))
perm-filter-map p f (Permᴰ.trans d d') =
    Permᴰ.trans (perm-filter-map p f d) (perm-filter-map p f d')

entry_set : IsSet (Millis × TimerKey)
entry_set = hlevel

-- Two layouts of the same map report the same events in the same order.
pub tick_deterministic :
    (s t : SchedulerAdapter) (now : Millis)
    → Perm s.pending t.pending
    → (tick s now).1 ≡ (tick t now).1
unfolding tick due
tick_deterministic s t now h =
    ap (map elapsed)
      (sort-perm entry_order entry_set (∥∥₁_map h (perm-filter-map (is_due now) swap)))

-- The order of the reports, spelled out.
abbrev pub Precedes : Millis × TimerKey → Millis × TimerKey → Type 0
Precedes (t, k) (u, l) = (t < u) ⊎ ((t ≡ u) × (text_leb k l ≡ true))

entry-Precedes : (p q : Millis × TimerKey) → entry_leb p q ≡ true → Precedes p q
unfolding entry_leb
entry-Precedes (t, k) (u, l) h = ground (arith, h)

Below-at :
    (a b : Millis × TimerKey) (xs : List (Millis × TimerKey)) (j : ℕ)
    → Below entry_leb a xs
    → get_elem? xs j ≡ some b
    → Precedes a b
Below-at a b [] j h found = cc
Below-at a b (x ∷ xs) zero h found =
    let same : x ≡ b = cc found in subst (Precedes a) same (entry-Precedes a x h.0)
Below-at a b (x ∷ xs) (suc j) h found = Below-at a b xs j h.1 found

sorted_at :
    (xs : List (Millis × TimerKey)) (i j : ℕ) (a b : Millis × TimerKey)
    → IsSorted entry_leb xs
    → i < j
    → get_elem? xs i ≡ some a
    → get_elem? xs j ≡ some b
    → Precedes a b
sorted_at [] i j a b h lt at_i at_j = cc
sorted_at (x ∷ xs) zero zero a b h lt at_i at_j = elim lt [ ]
sorted_at (x ∷ xs) zero (suc j) a b h lt at_i at_j =
    let same : x ≡ a = cc at_i in subst (λ y. Precedes y b) same (Below-at x b xs j h.0 at_j)
sorted_at (x ∷ xs) (suc i) zero a b h lt at_i at_j = elim lt [ ]
sorted_at (x ∷ xs) (suc i) (suc j) a b h lt at_i at_j =
    sorted_at xs i j a b h.1 (omega (arith, lt)) at_i at_j

-- Of two due timers, the one that is reported first has the earlier fire time, or the same fire time and
-- the key that comes first in the order of texts.
pub due-Precedes :
    (s : SchedulerAdapter) (now : Millis) (i j : ℕ) (a b : Millis × TimerKey)
    → i < j
    → get_elem? (due s now) i ≡ some a
    → get_elem? (due s now) j ≡ some b
    → Precedes a b
unfolding due
due-Precedes s now i j a b lt at_i at_j =
    sorted_at (due s now) i j a b
      (sort-IsSorted entry_order (map swap (filter (is_due now) s.pending))) lt at_i at_j
