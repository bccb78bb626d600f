-- ===== src/Compile/Returns.antt =====
-- A judgement on the methods of src/compile/lower.rs: a call returns a value, errors reported or not.
use domiform.Base.{◌≡◌, refl, Bool, true, false, Option, none, some, List, [], ◌∷◌, if◌then◌else◌}
use domiform.Base.Text.{Text}
use domiform.Compile.Diagnostic.{Diagnostic}
use domiform.Compile.Lowering.{Sheet, Lowering, pure, continue, ◌>>=◌, attempt, push, lift, error}
use domiform.Compile.Resolve.Adapters.{warn, push_all}
use domiform.Compile.Resolve.Lints.{look}

-- On every sheet the call returns a value.
pub record Returns {A : Type 0} (m : Lowering A) : Type 0 where
  pub given : (sheet : Sheet) → (a : A) × ((m sheet).0 ≡ some a)

pub Returns-pure : {A : Type 0} (a : A) → Returns (pure a)
Returns-pure a = record { given = λ sheet. (a, refl) }

continue-given :
    {A B : Type 0} (done : Option A × Sheet) (f : A → Lowering B)
    → (a : A) × (done.0 ≡ some a)
    → ((a : A) → Returns (f a))
    → (b : B) × ((continue done f).0 ≡ some b)
continue-given (some a, later) f held second = (second a).given later
continue-given (none, later) f (a, impossible) second = cc

pub Returns-bind :
    {A B : Type 0} {m : Lowering A} {f : A → Lowering B}
    → Returns m
    → ((a : A) → Returns (f a))
    → Returns (m >>= f)
unfolding ◌>>=◌
Returns-bind {m = m} {f = f} first second = record {
  given = λ sheet. continue-given (m sheet) f (first.given sheet) second;
}

pub Returns-if :
    {A : Type 0} (b : Bool) {m n : Lowering A}
    → Returns m
    → Returns n
    → Returns (if b then m else n)
Returns-if true m n = m
Returns-if false m n = n

pub Returns-attempt : {A : Type 0} (m : Lowering A) → Returns (attempt m)
unfolding attempt
Returns-attempt m = record { given = λ sheet. ((m sheet).0, refl) }

pub Returns-lift : {A : Type 0} {o : Option A} → (a : A) × (o ≡ some a) → Returns (lift o)
unfolding lift
Returns-lift held = record { given = λ sheet. held }

pub Returns-push : (d : Diagnostic) → Returns (push d)
unfolding push
Returns-push d = record { given = λ sheet. (tt, refl) }

pub Returns-error : (context code message : Text) → Returns (error context code message)
unfolding error
Returns-error context code message = Returns-push _

pub Returns-warn : (context code message : Text) → Returns (warn context code message)
unfolding warn
Returns-warn context code message = Returns-push _

pub Returns-push_all : (ds : List Diagnostic) → Returns (push_all ds)
unfolding push_all
Returns-push_all [] = Returns-pure tt
Returns-push_all (d ∷ ds) = Returns-bind (Returns-push d) λ u. Returns-push_all ds

pub Returns-look : Returns look
unfolding look
Returns-look = record { given = λ sheet. (sheet, refl) }
