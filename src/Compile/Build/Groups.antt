-- ===== src/Compile/Build/Groups.antt =====
-- The devices of each adapter in `build_engine_full` of src/compile/mod.rs.
use domiform.Base.{
  ℕ, suc, ◌<◌, ◌≡◌, refl, ap, ◌∙◌, some, List, [], ◌∷◌, ◌++◌, inl, inr, zero, sym, some_injective,
  filter, nat_beq, nat_beq_iff, get_elem?, if◌then◌else◌, append-nil, append_assoc, >>=-eq-some,
  Bool-cases, arith, length, length-set, get_elem?-some, set, All,
}
use domiform.Compile.Lowering.{DeviceDef}
use domiform.Compile.Build.Engine.{place, group, empty_groups}

-- Grouping finds a group for each device.
pub group-some :
    (n : ℕ) (ds : List DeviceDef) (groups : List (List DeviceDef))
    → length groups ≡ n
    → All (λ (d : DeviceDef). d.adapter < n) ds
    → (groups' : List (List DeviceDef)) × (group ds groups ≡ some groups') × (length groups' ≡ n)
unfolding group place
group-some n [] groups same h = (groups, refl, same)
group-some n (d ∷ ds) groups same h =
    let (found, eq) = get_elem?-some groups d.adapter (omega (arith, h.0, same)) in
    let grown = set groups d.adapter (found ++ d ∷ []) in
    let (groups', done, kept) =
      group-some n ds grown (length-set groups d.adapter (found ++ d ∷ []) ∙ same) h.1 in
    (groups', rw (place, eq) done, kept)

pub empty_groups-length : {A : Type 0} (as' : List A) → length (empty_groups as') ≡ length as'
empty_groups-length [] = refl
empty_groups-length (a ∷ as') = ap suc (empty_groups-length as')

empty_groups-get_elem? :
    {A : Type 0} (as' : List A) (i : ℕ) (g : List DeviceDef)
    → get_elem? (empty_groups as') i ≡ some g
    → g ≡ []
empty_groups-get_elem? [] i g found = cc
empty_groups-get_elem? (a ∷ as') zero g found = sym (some_injective found)
empty_groups-get_elem? (a ∷ as') (suc i) g found = empty_groups-get_elem? as' i g found

-- The devices of the adapter in place `i`.
abbrev pub served : List DeviceDef → ℕ → List DeviceDef
served ds i = filter (λ (d : DeviceDef). nat_beq d.adapter i) ds

get_elem?-set :
    {A : Type 0} (xs : List A) (i j : ℕ) (a b : A)
    → get_elem? xs i ≡ some b
    → get_elem? (set xs i a) j ≡ (if nat_beq i j then some a else get_elem? xs j)
get_elem?-set [] i j a b found = cc
get_elem?-set (x ∷ xs) zero zero a b found = refl
get_elem?-set (x ∷ xs) zero (suc j) a b found = ground arith
get_elem?-set (x ∷ xs) (suc i) zero a b found = ground arith
get_elem?-set (x ∷ xs) (suc i) (suc j) a b found = ground (arith, get_elem?-set xs i j a b found)

-- A group grows by its adapter's devices, in their order.
group-served :
    (ds : List DeviceDef) (groups groups' : List (List DeviceDef)) (i : ℕ) (g : List DeviceDef)
    → group ds groups ≡ some groups'
    → get_elem? groups i ≡ some g
    → get_elem? groups' i ≡ some (g ++ served ds i)
unfolding group place
group-served [] groups groups' i g done found =
    ap (λ gs. get_elem? gs i) (sym (some_injective done)) ∙ found ∙ ap some (sym (append-nil g))
group-served (d ∷ ds) groups groups' i g done found =
    let (grown, placed, rest) = >>=-eq-some (place groups d) _ done in
    let (own, there, put) = >>=-eq-some (get_elem? groups d.adapter) _ placed in
    let now : get_elem? grown i
        ≡ (if nat_beq d.adapter i then some (own ++ d ∷ []) else get_elem? groups i) =
      ap (λ gs. get_elem? gs i) (sym (some_injective put))
      ∙ get_elem?-set groups d.adapter i (own ++ d ∷ []) own there in
    elim (Bool-cases (nat_beq d.adapter i)) [
      | inl p ↦
          let here : d.adapter ≡ i = (nat_beq_iff d.adapter i).0 p in
          let same : own ≡ g = some_injective (sym there ∙ ap (get_elem? groups) here ∙ found) in
          let longer : get_elem? grown i ≡ some (g ++ d ∷ []) =
            now ∙ rw p (ap (λ xs. some (xs ++ d ∷ [])) same) in
          group-served ds grown groups' i (g ++ d ∷ []) rest longer
          ∙ rw p (ap some (append_assoc g (d ∷ []) (served ds i)))
      | inr p ↦
          let kept : get_elem? grown i ≡ some g = now ∙ rw p found in
          group-served ds grown groups' i g rest kept ∙ rw p refl
    ]

-- What the groups of a configuration hold.
pub grouped-served :
    {A : Type 0} (as' : List A) (ds : List DeviceDef) (groups : List (List DeviceDef)) (i : ℕ)
    (g : List DeviceDef)
    → group ds (empty_groups as') ≡ some groups
    → i < length as'
    → get_elem? groups i ≡ some g
    → g ≡ served ds i
grouped-served as' ds groups i g done below found =
    let (g0, at_first) =
      get_elem?-some (empty_groups as') i (omega (arith, below, empty_groups-length as')) in
    let nothing : g0 ≡ [] = empty_groups-get_elem? as' i g0 at_first in
    let all_of = group-served ds (empty_groups as') groups i g0 done at_first in
    some_injective (sym found ∙ all_of) ∙ ap (λ xs. xs ++ served ds i) nothing
