-- ===== src/Compile/Ensures.antt =====
-- A judgement on the methods of src/compile/lower.rs: they take no error back, and where they report none
-- they return a value with a property.
use domiform.Base.{
  ℕ, suc, ◌+◌, ◌≤◌, ◌≡◌, refl, ap, Bool, true, false, Option, none, some, List, [], ◌∷◌, ◌++◌,
  if◌then◌else◌, arith, subst, ◌≢◌,
}
use domiform.Base.Text.{Text}
use domiform.Compile.Diagnostic.{Diagnostic, of_error, at, is_error, error_count}
use domiform.Compile.Lowering.{
  Sheet, Lowering, pure, continue, ◌>>=◌, attempt, push, lift, error, fail, expect,
}

-- The number of errors that a sheet holds.
abbrev pub count : Sheet → ℕ
count sheet = error_count sheet.diags

abbrev pub Held : {A : Type 0} → Option A → (A → Type 0) → Type 0
Held {A} o Q = (a : A) × (o ≡ some a) × Q a

-- `H` is what holds of the values at hand.
pub record Ensures {A : Type 0} (H : Type 0) (Q : A → Type 0) (m : Lowering A) : Type 0 where
  pub grows : (sheet : Sheet) → count sheet ≤ count (m sheet).1
  pub returns : (sheet : Sheet) → count (m sheet).1 ≡ count sheet → H → Held (m sheet).0 Q

error_count-append :
    (d : Diagnostic) (ds : List Diagnostic)
    → error_count (ds ++ d ∷ []) ≡ error_count ds + error_count (d ∷ [])
unfolding error_count
error_count-append d [] = omega arith
error_count-append d (e ∷ ds) = ground (arith, error_count-append d ds)

reported :
    (context code message : Text) (sheet : Sheet)
    → count (error context code message sheet).1 ≡ suc (count sheet)
unfolding error push of_error at is_error error_count
reported context code message sheet =
    omega (arith, error_count-append (at (of_error code message) context) sheet.diags)

one_more :
    (context code message : Text) (sheet : Sheet)
    → count (error context code message sheet).1 ≢ count sheet
one_more context code message sheet same = omega (arith, reported context code message sheet, same)

module _ {H : Type 0} where
  pub Ensures-pure : {A : Type 0} {Q : A → Type 0} (a : A) → (H → Q a) → Ensures H Q (pure a)
  Ensures-pure a q = record { grows = λ sheet. omega arith; returns = λ sheet _ h. (a, refl, q h) }

  -- The outcome of `m` is at hand.
  module _ {A B : Type 0} (P : A → Type 0) (Q : B → Type 0) (f : A → Lowering B) where
    continue-grows :
        (sheet : Sheet) (done : Option A × Sheet)
        → count sheet ≤ count done.1
        → ((a : A) → Ensures (H × P a) Q (f a))
        → count sheet ≤ count (continue done f).1
    continue-grows sheet (none, later) le second = le
    continue-grows sheet (some a, later) le second = omega (arith, le, (second a).grows later)

    continue-returns :
        (sheet : Sheet) (done : Option A × Sheet)
        → count sheet ≤ count done.1
        → (count done.1 ≡ count sheet → H → Held done.0 P)
        → ((a : A) → Ensures (H × P a) Q (f a))
        → count (continue done f).1 ≡ count sheet
        → H
        → Held (continue done f).0 Q
    continue-returns sheet (none, later) le first second same h =
        let (a, impossible, p) = first same h in cc
    continue-returns sheet (some a, later) le first second same h =
        let (b, eq, p) = first (omega (arith, le, (second a).grows later, same)) h in
        let arrived : b ≡ a = cc eq in
        (second a).returns later (omega (arith, le, (second a).grows later, same))
          (h, subst P arrived p)

  pub Ensures-bind :
      {A B : Type 0} {P : A → Type 0} {Q : B → Type 0} {m : Lowering A} {f : A → Lowering B}
      → Ensures H P m
      → ((a : A) → Ensures (H × P a) Q (f a))
      → Ensures H Q (m >>= f)
  unfolding ◌>>=◌
  Ensures-bind {P} {Q} {m} {f} first second = record {
    grows = λ sheet. continue-grows P Q f sheet (m sheet) (first.grows sheet) second;
    returns = λ sheet.
        continue-returns P Q f sheet (m sheet) (first.grows sheet) (first.returns sheet) second;
  }

  -- The same code under stronger premises, or for a weaker result.
  pub Ensures-weaken :
      {A : Type 0} {G : Type 0} {P Q : A → Type 0} {m : Lowering A}
      → (H → G)
      → ((a : A) → H → P a → Q a)
      → Ensures G P m
      → Ensures H Q m
  Ensures-weaken g q e = record {
    grows = e.grows;
    returns = λ sheet same h. let (a, eq, p) = e.returns sheet same (g h) in (a, eq, q a h p);
  }

  pub Ensures-if :
      {A : Type 0} {Q : A → Type 0} (b : Bool) {m n : Lowering A}
      → Ensures H Q m
      → Ensures H Q n
      → Ensures H Q (if b then m else n)
  Ensures-if true em en = em
  Ensures-if false em en = en

  pub Ensures-attempt :
      {A : Type 0} {Q : A → Type 0} {m : Lowering A}
      → Ensures H Q m
      → Ensures H (λ o. Held o Q) (attempt m)
  unfolding attempt
  Ensures-attempt {m} e = record {
    grows = e.grows;
    returns = λ sheet same h. ((m sheet).0, refl, e.returns sheet same h);
  }

  pub Ensures-lift :
      {A : Type 0} {Q : A → Type 0} {o : Option A} → (H → Held o Q) → Ensures H Q (lift o)
  unfolding lift
  Ensures-lift e = record { grows = λ sheet. omega arith; returns = λ sheet _ h. e h }

  pub Ensures-push : {Q : Unit {0} → Type 0} (d : Diagnostic) → (H → Q tt) → Ensures H Q (push d)
  unfolding push
  Ensures-push d q = record {
    grows = λ sheet. omega (arith, error_count-append d sheet.diags);
    returns = λ sheet _ h. (tt, refl, q h);
  }

  -- An update of the sheet that leaves the diagnostics.
  pub Ensures-note :
      {A : Type 0} {Q : A → Type 0} {m : Lowering A} (a : A)
      → ((sheet : Sheet) → ((m sheet).0 ≡ some a) × ((m sheet).1.diags ≡ sheet.diags))
      → (H → Q a)
      → Ensures H Q m
  Ensures-note {m} a keeps q = record {
    grows = λ sheet. rw (ap error_count (keeps sheet).1) (omega arith);
    returns = λ sheet _ h. (a, (keeps sheet).0, q h);
  }

module _ {H : Type 0} (context : Text) where
  -- An error leaves nothing to show.
  pub Ensures-error :
      {Q : Unit {0} → Type 0} (code message : Text) → Ensures H Q (error context code message)
  Ensures-error code message = record {
    grows = λ sheet. omega (arith, reported context code message sheet);
    returns = λ sheet same h. absurd (one_more context code message sheet same);
  }

  pub Ensures-fail :
      {A : Type 0} {Q : A → Type 0} (code message : Text)
      → Ensures H Q (fail context {A = A} code message)
  unfolding fail lift error push ◌>>=◌
  Ensures-fail code message = record {
    grows = λ sheet. omega (arith, reported context code message sheet);
    returns = λ sheet same h. absurd (one_more context code message sheet same);
  }

  pub Ensures-expect :
      {A : Type 0} {Q : A → Type 0} (o : Option A) (code message : Text)
      → ((a : A) → o ≡ some a → H → Q a)
      → Ensures H Q (expect context o code message)
  unfolding expect
  Ensures-expect (some a) code message q = Ensures-pure a (q a refl)
  Ensures-expect none code message q = Ensures-fail code message
