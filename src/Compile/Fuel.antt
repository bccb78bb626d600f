-- ===== src/Compile/Fuel.antt =====
-- The recursion of `condition` in src/compile/lower.rs ends: any fuel above a value's size gives the same.
use domiform.Base.{
  ℕ, zero, suc, ◌<◌, ◌≤◌, ◌⊎◌, inl, inr, ◌≡◌, refl, ap, ap₂, Option, none, some, List, [], ◌∷◌, All,
  All-map, arith, ◌==◌, if◌then◌else◌,
}
use domiform.Base.Text.{Text, bytes, text_eq}
use domiform.Rule.Condition.{Condition, Conditions, negation, conjunction, disjunction}
use domiform.Compile.Ast.{Yaml}
use domiform.Compile.Lowering.{
  Scope, Sheet, Lowering, entry_of, single_entry, expect, pure, ◌>>=◌, attempt, lift, fail, error,
  push,
}
use domiform.Compile.Conditions.{
  lower_items, condition_list, condition_of, condition_within, condition, join, leaf_condition,
}
use domiform.Compile.Typed.Conditions.{IsYaml, entry_of-smaller, Ensures-within}
use domiform.Compile.Typed.Defs.{IsScope}
use domiform.Compile.Ensures.{count}

lt_or_eq : (m n : ℕ) → m ≤ n → (m < n) ⊎ (n ≡ m)
lt_or_eq m n h = ground (arith, h)

-- Values that a test delivers decide what comes after it.
expect-bind :
    {A B : Type 0} (context : Text) (o : Option A) (code message : Text) (f g : A → Lowering B)
    → ((a : A) → o ≡ some a → f a ≡ g a)
    → (expect context o code message >>= f) ≡ (expect context o code message >>= g)
unfolding expect fail error push lift ◌>>=◌
expect-bind context none code message f g same = refl
expect-bind context (some a) code message f g same = same a refl

module _ (y : Yaml) (scope : Scope) (context : Text) where
  module _ (f g : y.Value → Lowering Condition) where
    items-agree :
        (items : List y.Value)
        → All (λ item. f item ≡ g item) items
        → lower_items y scope context f items ≡ lower_items y scope context g items
    unfolding lower_items
    items-agree [] same = refl
    items-agree (item ∷ items) same =
        ap₂ (λ m n. attempt m >>= λ c. n >>= λ rest. pure (join c rest)) same.0
          (items-agree items same.1)

    list-agree :
        (v : y.Value) (node : Text)
        → ((items : List y.Value)
            → y.as_sequence v ≡ some items
            → All (λ item. f item ≡ g item) items)
        → condition_list y scope context f v node ≡ condition_list y scope context g v node
    unfolding condition_list
    list-agree v node same =
        expect-bind context (y.as_sequence v) _ _ _ _
          λ items eq. ap (λ m. m >>= λ out. lift out) (items-agree items (same items eq))

    of-agree :
        (verb : Text) (v : y.Value)
        → ((items : List y.Value)
            → y.as_sequence v ≡ some items
            → All (λ item. f item ≡ g item) items)
        → f v ≡ g v
        → condition_of y scope context f verb v ≡ condition_of y scope context g verb v
    unfolding condition_of
    of-agree verb v same alike =
        ap₂
          (λ (m : Lowering Conditions) (n : Lowering Condition).
            if verb == bytes "all"
            then m >>= (λ cs. pure (conjunction cs))
            else if verb == bytes "any"
            then m >>= (λ cs. pure (disjunction cs))
            else if verb == bytes "not"
            then n >>= (λ c. pure (negation c))
            else leaf_condition y scope context verb v)
          (list-agree v verb same) alike

  within-agree :
      (laws : IsYaml y) (f g : ℕ) (v : y.Value)
      → y.size v < f
      → y.size v < g
      → condition_within y scope context f v ≡ condition_within y scope context g v
  unfolding condition_within single_entry
  within-agree laws zero g v enough enough' = elim enough [ ]
  within-agree laws (suc f) zero v enough enough' = elim enough' [ ]
  within-agree laws (suc f) (suc g) v enough enough' =
      expect-bind context (entry_of y v) _ _ _ _ λ (verb, body) eq.
        let smaller = entry_of-smaller y laws v verb body eq in
        of-agree (condition_within y scope context f) (condition_within y scope context g) verb body
          (λ items found.
            All-map _ _ items
              (λ item less.
                within-agree laws f g item (omega (arith, smaller, less, enough))
                  (omega (arith, smaller, less, enough')))
              (laws.items_smaller body items found))
          (within-agree laws f g body (omega (arith, smaller, enough))
            (omega (arith, smaller, enough')))

  -- For a library whose values are bigger than their parts, and tables in step, lowering a condition within
  -- any number of levels above the value's size gives a condition or reports a new error, and gives the same
  -- as lowering it: the levels never run out, which would give nothing and report nothing.
  pub condition_within-enough :
      (laws : IsYaml y) (fuel : ℕ) (v : y.Value) (sheet : Sheet)
      → IsScope scope
      → y.size v < fuel
      → ((count sheet < count (condition_within y scope context fuel v sheet).1)
          ⊎ ((c : Condition) × ((condition_within y scope context fuel v sheet).0 ≡ some c)))
        × (condition_within y scope context fuel v ≡ condition y scope context v)
  unfolding condition
  condition_within-enough laws fuel v sheet in_step enough =
      let judged = Ensures-within y laws scope context fuel v in
      (
        elim (lt_or_eq _ _ (judged.grows sheet)) [
          | inl more ↦ inl more
          | inr same ↦
              let (c, found, typed) = judged.returns sheet same (in_step, enough) in inr (c, found)
        ],
        within-agree laws fuel (suc (y.size v)) v enough (omega arith),
      )
