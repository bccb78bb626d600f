-- ===== src/Adapters/Clock/Fire.antt =====
-- Which occurrences src/adapters/clock.rs fires.
use domiform.Base.{
  ℕ, zero, suc, ◌+◌, ◌<◌, ◌≡◌, ◌↔◌, ◌⊎◌, refl, ap, subst, Option, none, some, List, [], ◌∷◌, inl,
  inr, Bool-cases, Option-cases, In, arith,
}
use domiform.Base.Int.{ℤ, pos, negsuc, pos_part, neg_part, ltb_ℤ, leb_ℤ, ◌≤ℤ◌}
use domiform.Adapters.Clock.Defs.{Almanac, fire_loop, distance}

infix 50 ◌<ℤ◌
abbrev pub ◌<ℤ◌ : ℤ → ℤ → Type 0
t <ℤ u = pos_part t + neg_part u < pos_part u + neg_part t

order : (m n : ℕ) → (m ≡ n) ⊎ (m < n ⊎ n < m)
order m n = ground arith

pub ℤ-trichotomy : (t u : ℤ) → (t ≡ u) ⊎ (t <ℤ u ⊎ u <ℤ t)
ℤ-trichotomy (pos m) (pos n) = elim (order m n) [
  | inl e ↦ inl (ap pos e)
  | inr (inl l) ↦ inr (inl (omega (arith, l)))
  | inr (inr g) ↦ inr (inr (omega (arith, g)))
]
ℤ-trichotomy (pos m) (negsuc n) = inr (inr (omega arith))
ℤ-trichotomy (negsuc m) (pos n) = inr (inl (omega arith))
ℤ-trichotomy (negsuc m) (negsuc n) = elim (order m n) [
  | inl e ↦ inl (ap negsuc e)
  | inr (inl l) ↦ inr (inr (omega (arith, l)))
  | inr (inr g) ↦ inr (inl (omega (arith, g)))
]

-- What croner documents of `find_next_occurrence` with `inclusive` false: the first occurrence after the
-- instant, if there is one.
pub record IsAlmanac (a : Almanac) (Occurs : a.Cron → ℤ → Type 0) : Type 0 where
  pub found_occurs : (c : a.Cron) (t u : ℤ) → a.find_next_occurrence c t ≡ some u → Occurs c u
  pub found_after : (c : a.Cron) (t u : ℤ) → a.find_next_occurrence c t ≡ some u → t <ℤ u
  pub found_first :
      (c : a.Cron) (t u v : ℤ) → a.find_next_occurrence c t ≡ some u → Occurs c v → t <ℤ v → u ≤ℤ v
  pub none_after :
      (c : a.Cron) (t v : ℤ) → a.find_next_occurrence c t ≡ none → Occurs c v → t <ℤ v → ⊥

module _ (a : Almanac) (Occurs : a.Cron → ℤ → Type 0) (laws : IsAlmanac a Occurs) (c : a.Cron) where
  -- `next` is the first occurrence after `last`.
  pub record IsNext (last : ℤ) (next : Option ℤ) : Type 0 where
    pub occurs : (u : ℤ) → next ≡ some u → Occurs c u × (last <ℤ u)
    pub first : (u v : ℤ) → next ≡ some u → Occurs c v → last <ℤ v → u ≤ℤ v
    pub ended : (v : ℤ) → next ≡ none → Occurs c v → last <ℤ v → ⊥

  pub found-IsNext : (t : ℤ) → IsNext t (a.find_next_occurrence c t)
  found-IsNext t = record {
    occurs = λ u eq. (laws.found_occurs c t u eq, laws.found_after c t u eq);
    first = λ u v eq occurs later. laws.found_first c t u v eq occurs later;
    ended = λ v eq occurs later. laws.none_after c t v eq occurs later;
  }

  -- An occurrence from `last`, excluded, to `local`, included.
  abbrev pub InSpan : ℤ → ℤ → ℤ → Type 0
  InSpan last local v = Occurs c v × (last <ℤ v) × (v ≤ℤ local)

  abbrev pub Increasing : ℤ → List ℤ → Type 0
  Increasing last [] = Unit
  Increasing last (t ∷ ts) = (last <ℤ t) × Increasing t ts

  pub record IsFired (last local : ℤ) (done : List ℤ × Option ℤ) : Type 0 where
    pub next : IsNext local done.1
    pub increasing : Increasing last done.0
    pub exactly : (v : ℤ) → In v done.0 ↔ InSpan last local v

  nothing-due :
      (last local : ℤ) (next : Option ℤ)
      → IsNext last next
      → last ≤ℤ local
      → ((u : ℤ) → next ≡ some u → local <ℤ u)
      → IsFired last local ([], next)
  nothing-due last local next h le late = record {
    next = record {
      occurs = λ u eq. ((h.occurs u eq).0, late u eq);
      first = λ u v eq occurs later. h.first u v eq occurs (omega (arith, le, later));
      ended = λ v eq occurs later. h.ended v eq occurs (omega (arith, le, later));
    };
    increasing = tt;
    exactly = λ v. (
      λ m. absurd m,
      λ (occurs, later, early). elim (Option-cases next) [
        | inl p ↦ absurd (h.ended v p occurs later)
        | inr (u, p) ↦ absurd (omega (arith, h.first u v p occurs later, late u p, early))
      ],
    );
  }

  pub fire_loop-IsFired :
      (fuel : ℕ) (last local : ℤ) (next : Option ℤ)
      → IsNext last next
      → last ≤ℤ local
      → ((u : ℤ) → next ≡ some u → u ≤ℤ local → distance u local < fuel)
      → IsFired last local (fire_loop a fuel c local next)
  unfolding fire_loop
  fire_loop-IsFired zero last local next h le enough = nothing-due last local next h le λ u eq.
      elim (Bool-cases (leb_ℤ u local)) [
        | inl p ↦
            let early : u ≤ℤ local = ground (arith, p) in
            let impossible : distance u local < 0 = enough u eq early in omega (arith, impossible)
        | inr p ↦ ground (arith, p)
      ]
  fire_loop-IsFired (suc fuel) last local none h le enough =
      nothing-due last local none h le λ u impossible. cc
  fire_loop-IsFired (suc fuel) last local (some t) h le enough = elim (Bool-cases (ltb_ℤ local t)) [
    | inl p ↦
        rw (fire_loop, p)
          (nothing-due last local (some t) h le λ u eq.
            let same : t ≡ u = cc eq in
            let late : local <ℤ t = ground (arith, p) in subst (λ v. local <ℤ v) same late)
    | inr p ↦
        let early : t ≤ℤ local = ground (arith, p) in
        let after = (h.occurs t refl).1 in
        let rest =
          fire_loop-IsFired fuel t local (a.find_next_occurrence c t) (found-IsNext t) early
            λ u eq soon.
              omega (arith, enough t refl early, laws.found_after c t u eq, soon, early) in
        rw (fire_loop, p)
          (record {
            next = rest.next;
            increasing = (after, rest.increasing);
            exactly = λ v. (
              λ m. elim m [
                | inl e ↦ subst (InSpan last local) e ((h.occurs t refl).0, after, early)
                | inr there ↦
                    let (occurs, later, soon) = (rest.exactly v).0 there in
                    (occurs, omega (arith, after, later), soon)
              ],
              λ (occurs, later, soon). elim (ℤ-trichotomy t v) [
                | inl e ↦ inl e
                | inr (inl l) ↦ inr ((rest.exactly v).1 (occurs, l, soon))
                | inr (inr g) ↦ absurd (omega (arith, h.first t v refl occurs later, g))
              ],
            );
          })
  ]
