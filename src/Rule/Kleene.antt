-- ===== src/Rule/Kleene.antt =====
-- The evaluator of src/rule.rs against the three-valued logic that it promises.
use domiform.Base.{
  ◌≡◌, ◌≢◌, ◌↔◌, ◌⊎◌, refl, sym, ap, Option, none, some, arith, ◌∙◌, inl, inr, ◌>>=◌,
}
use domiform.State
use domiform.State.{StateStore}
use domiform.Model.Capability.{CapabilityKind, CapabilityState, DeviceId, as_bool, as_i64}
use domiform.Rule.Truth.{Truth, true_, false_, unknown, negate, and, or}
use domiform.Rule.Condition.{
  Condition, Conditions, always, negation, conjunction, disjunction, bool_equals, compare,
  color_equals, nil, cons, bool_leaf, num_leaf, color_leaf, eval, eval_and, eval_or,
}

-- `t` holds all that `s` holds, and perhaps more.
pub record Extends (s t : StateStore) : Type 0 where
  pub keeps :
      (d : DeviceId) (k : CapabilityKind) (v : CapabilityState)
      → State.get s d k ≡ some v
      → State.get t d k ≡ some v

-- `b` is `a`, or `a` is unknown.
infix 40 ◌⊑◌
abbrev pub ◌⊑◌ : Truth → Truth → Type 0
a ⊑ b = (a ≡ unknown) ⊎ (a ≡ b)

negate-⊑ : (a b : Truth) → a ⊑ b → negate a ⊑ negate b
unfolding negate
negate-⊑ a b h = ground arith

and-⊑ : (a b c d : Truth) → a ⊑ b → c ⊑ d → and a c ⊑ and b d
unfolding and
and-⊑ a b c d h k = ground arith

or-⊑ : (a b c d : Truth) → a ⊑ b → c ⊑ d → or a c ⊑ or b d
unfolding or
or-⊑ a b c d h k = ground arith

leaf-⊑ :
    {A : Type 0} (f : Option A → Truth) (o p : Option A)
    → f none ≡ unknown
    → ((a : A) → o ≡ some a → p ≡ some a)
    → f o ⊑ f p
leaf-⊑ f none p e h = inl e
leaf-⊑ f (some a) p e h = inr (ap f (sym (h a refl)))

mutual
  unfolding eval

  eval-⊑ : (c : Condition) {s t : StateStore} → Extends s t → eval c s ⊑ eval c t
  eval-⊑ always h = inr refl
  eval-⊑ (negation c) {s} {t} h = negate-⊑ (eval c s) (eval c t) (eval-⊑ c h)
  eval-⊑ (conjunction cs) h = eval_and-⊑ cs h true_ true_ (inr refl)
  eval-⊑ (disjunction cs) h = eval_or-⊑ cs h false_ false_ (inr refl)
  eval-⊑ (bool_equals d k v) {s} {t} h =
      leaf-⊑ (λ o. bool_leaf (o >>= as_bool) v) (State.get s d k) (State.get t d k) refl
        (h.keeps d k)
  eval-⊑ (compare d k op v) {s} {t} h =
      leaf-⊑ (λ o. num_leaf (o >>= as_i64) op v) (State.get s d k) (State.get t d k) refl
        (h.keeps d k)
  eval-⊑ (color_equals d r g b) {s} {t} h =
      let k = CapabilityKind.color in
      leaf-⊑ (λ o. color_leaf o r g b) (State.get s d k) (State.get t d k) refl (h.keeps d k)

  eval_and-⊑ :
      (cs : Conditions) {s t : StateStore}
      → Extends s t
      → (a b : Truth) → a ⊑ b
      → eval_and cs s a ⊑ eval_and cs t b
  eval_and-⊑ nil h a b le = le
  eval_and-⊑ (cons c cs) {s} {t} h a b le =
      eval_and-⊑ cs h (and a (eval c s)) (and b (eval c t))
        (and-⊑ a b (eval c s) (eval c t) le (eval-⊑ c h))

  eval_or-⊑ :
      (cs : Conditions) {s t : StateStore}
      → Extends s t
      → (a b : Truth) → a ⊑ b
      → eval_or cs s a ⊑ eval_or cs t b
  eval_or-⊑ nil h a b le = le
  eval_or-⊑ (cons c cs) {s} {t} h a b le =
      eval_or-⊑ cs h (or a (eval c s)) (or b (eval c t))
        (or-⊑ a b (eval c s) (eval c t) le (eval-⊑ c h))

-- Learning more never changes a definite answer: a condition that is true, or false, of a store
-- stays so in every store that holds the same values and more.
pub eval_stable :
    (c : Condition) (s t : StateStore) → Extends s t → eval c s ≢ unknown → eval c t ≡ eval c s
eval_stable c s t h known = elim (eval-⊑ c h) [ inl e ↦ absurd (known e) | inr e ↦ sym e ]

-- The conditions of a list are all true of a store; one of them is false of it.
abbrev pub AllTrue : Conditions → StateStore → Type 0
AllTrue nil s = Unit
AllTrue (cons c cs) s = (eval c s ≡ true_) × AllTrue cs s

abbrev pub AnyFalse : Conditions → StateStore → Type 0
AnyFalse nil s = ⊥
AnyFalse (cons c cs) s = (eval c s ≡ false_) ⊎ AnyFalse cs s

eval_and_true :
    (cs : Conditions) (s : StateStore) (acc : Truth)
    → (eval_and cs s acc ≡ true_) ↔ ((acc ≡ true_) × AllTrue cs s)
unfolding eval and
eval_and_true nil s acc = ground arith
eval_and_true (cons c cs) s acc = ground (arith, eval_and_true cs s (and acc (eval c s)))

eval_and_false :
    (cs : Conditions) (s : StateStore) (acc : Truth)
    → (eval_and cs s acc ≡ false_) ↔ ((acc ≡ false_) ⊎ AnyFalse cs s)
unfolding eval and
eval_and_false nil s acc = ground arith
eval_and_false (cons c cs) s acc = ground (arith, eval_and_false cs s (and acc (eval c s)))

-- An `all` is true exactly if every member is, and false exactly if some member is, whatever is
-- unknown beside it.
pub conjunction_lem :
    (cs : Conditions) (s : StateStore)
    → ((eval (conjunction cs) s ≡ true_) ↔ AllTrue cs s)
      × ((eval (conjunction cs) s ≡ false_) ↔ AnyFalse cs s)
unfolding eval
conjunction_lem cs s = ground (arith, eval_and_true cs s true_, eval_and_false cs s true_)

abbrev pub negate_all : Conditions → Conditions
negate_all nil = nil
negate_all (cons c cs) = cons (negation c) (negate_all cs)

negate-and : (a b : Truth) → negate (and a b) ≡ or (negate a) (negate b)
unfolding negate and or
negate-and a b = ground arith

negate-eval_and :
    (cs : Conditions) (s : StateStore) (acc : Truth)
    → negate (eval_and cs s acc) ≡ eval_or (negate_all cs) s (negate acc)
unfolding eval
negate-eval_and nil s acc = refl
negate-eval_and (cons c cs) s acc =
    negate-eval_and cs s (and acc (eval c s))
    ∙ ap (eval_or (negate_all cs) s) (negate-and acc (eval c s))

-- De Morgan: not all of a list holds to the same degree, unknown included, as some negation holds.
pub de_morgan :
    (cs : Conditions) (s : StateStore)
    → eval (negation (conjunction cs)) s ≡ eval (disjunction (negate_all cs)) s
unfolding eval negate
de_morgan cs s = negate-eval_and cs s true_
