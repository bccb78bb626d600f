-- ===== src/Compile/Sound/Rules.antt =====
-- The scenes and rules of `resolve` in src/compile/resolve.rs.
use domiform.Base.{
  ℕ, suc, ◌+◌, ◌<◌, ◌^◌, ◌≡◌, refl, sym, subst, ap, ◌∙◌, true, Option, none, some, List, [], ◌∷◌,
  arith, inl, inr, All, length, nat_eq, if◌then◌else◌, Bool-cases, nat_beq, All-map, All-zip,
  beq_refl, false, ◌≤◌,
}
use domiform.Base.Assoc.{Assoc, insert, lookup, lookup-insert, lookup-insert_same}
use domiform.Base.Text.{Text, text_eq, text_beq}
use domiform.Model.Capability.{RuleId, SceneId, Millis}
use domiform.Model.Command.{Command}
use domiform.Rule.Trigger.{Trigger, is_edge}
use domiform.Rule.Condition.{Condition, always}
use domiform.Rule.Rules.{Rule}
use domiform.Engine.Timers.{find_rule}
use domiform.Engine.Sustain.Pending.{IsFit}
use domiform.Compile.Ast.{Yaml, RawRule}
use domiform.Compile.Lowering.{Scope}
use domiform.Compile.Ensures.{
  Ensures, Held, Ensures-pure, Ensures-bind, Ensures-attempt, Ensures-lift, Ensures-weaken,
}
use domiform.Compile.Resolve.Adapters.{to_u32}
use domiform.Compile.Resolve.Rules.{
  CompiledScene, index_scenes, lower_scenes, rule_condition, rule_duration, finish_rule, lower_rule,
  lower_rules,
}
use domiform.Compile.Typed.Defs.{IsScope, IsTypedTrigger, IsTypedCondition, IsU64}
use domiform.Compile.Typed.Triggers.{Ensures-trigger}
use domiform.Compile.Typed.Conditions.{IsYaml, Ensures-condition}
use domiform.Compile.Typed.Commands.{AreCommands, Ensures-commands, Ensures-for_duration}

-- Every scene has an id.
abbrev pub Has : Text → Assoc Text SceneId → Type 0
Has label index = (id : SceneId) × (lookup label index ≡ some id)

index_scenes-Has :
    {A : Type 0} (raws : List (Text × A)) (index : Assoc Text SceneId) (label : Text)
    → Has label index
    → Has label (index_scenes raws index)
unfolding index_scenes
index_scenes-Has [] index label h = h
index_scenes-Has ((l, raw) ∷ rest) index label (id, found) =
    let kept : Has label (insert l (to_u32 (length index)) index) =
      elim (Bool-cases (text_beq l label)) [
        | inl p ↦ (
          to_u32 (length index),
          lookup-insert l label _ index
              ∙ ap (λ b. if b then some (to_u32 (length index)) else lookup label index) p,
        )
        | inr p ↦ (
          id,
          lookup-insert l label _ index
              ∙ ap (λ b. if b then some (to_u32 (length index)) else lookup label index) p
              ∙ found,
        )
      ] in
    index_scenes-Has rest (insert l (to_u32 (length index)) index) label kept

pub index_scenes-All :
    {A : Type 0} (raws : List (Text × A)) (index : Assoc Text SceneId)
    → All (λ (e : Text × A). Has e.0 (index_scenes raws index)) raws
unfolding index_scenes
index_scenes-All [] index = tt
index_scenes-All ((l, raw) ∷ rest) index = (
  index_scenes-Has rest (insert l (to_u32 (length index)) index) l
      (to_u32 (length index), lookup-insert_same l (to_u32 (length index)) index),
  index_scenes-All rest (insert l (to_u32 (length index)) index),
)

-- A scene for each of the file's, under its name and id, with a command for each of its values.
abbrev pub AreScenes : (y : Yaml) → Scope → List (Text × List y.Value) → List CompiledScene → Type 0
AreScenes y scope [] [] = Unit
AreScenes y scope ((label, raw) ∷ raws) (s ∷ ss) =
    ((s.name ≡ label)
      × (lookup label scope.scene_index ≡ some s.id)
      × AreCommands y scope raw s.commands)
    × AreScenes y scope raws ss
AreScenes y scope _ _ = ⊥

-- The duration of a rule whose `for:` is given.
abbrev pub IsDuration : Option Text → Trigger → Option Millis → Type 0
IsDuration none t d = d ≡ none
IsDuration (some raw) t d = Held d λ after. (is_edge t ≡ true) × IsU64 after

-- What the file's rule becomes, with the given id.
pub record IsRuleOf (y : Yaml) (scope : Scope) (label : Text) (raw : RawRule y.Value) (id : RuleId)
    (r : Rule) : Type 0 where
  pub numbered : r.id ≡ id
  pub named : r.name ≡ label
  pub triggered : IsTypedTrigger scope r.trigger
  pub conditioned : IsTypedCondition scope r.condition
  pub commanded : AreCommands y scope raw.then r.commands
  pub sustained : IsDuration raw.for_duration r.trigger r.for_duration

abbrev pub AreRules : (y : Yaml) → Scope → List (Text × RawRule y.Value) → ℕ → List Rule → Type 0
AreRules y scope [] i [] = Unit
AreRules y scope ((label, raw) ∷ raws) i (r ∷ rs) =
    IsRuleOf y scope label raw (to_u32 i) r × AreRules y scope raws (suc i) rs
AreRules y scope _ i _ = ⊥

module _ (y : Yaml) (laws : IsYaml y) (scope : Scope) where
  pub Ensures-scenes :
      (raws : List (Text × List y.Value)) {H : Type 0}
      → (H → IsScope scope)
      → (H → All (λ (e : Text × List y.Value). Has e.0 scope.scene_index) raws)
      → Ensures H (AreScenes y scope raws) (lower_scenes y scope raws)
  unfolding lower_scenes
  Ensures-scenes [] wf has = Ensures-pure [] λ h. tt
  Ensures-scenes ((label, raw) ∷ rest) wf has =
      Ensures-bind (Ensures-commands y scope _ wf raw) λ cs.
        Ensures-bind {P = λ id. lookup label scope.scene_index ≡ some id}
          (Ensures-lift λ h. let (id, found) = (has h.0).0 in (id, found, found))
          λ id.
            Ensures-bind (Ensures-scenes rest (λ h. wf h.0.0) (λ h. (has h.0.0).1))
              λ more. Ensures-pure _ λ h. ((refl, h.0.1, h.0.0.1), h.1)

  module _ {H : Type 0} (wf : H → IsScope scope) where
    Ensures-rule_condition :
        (context : Text) (o : Option y.Value)
        → Ensures H (IsTypedCondition scope) (rule_condition y scope context o)
    unfolding rule_condition
    Ensures-rule_condition context none = Ensures-pure always λ h. tt
    Ensures-rule_condition context (some c) =
        Ensures-weaken wf (λ c h p. p) (Ensures-condition y laws scope context c)

    Ensures-rule_duration :
        (context : Text) (o : Option Text) (t : Trigger)
        → Ensures H (IsDuration o t) (rule_duration y scope context o t)
    unfolding rule_duration
    Ensures-rule_duration context none t = Ensures-pure none λ h. refl
    Ensures-rule_duration context (some raw) t =
        Ensures-weaken (λ h. h) (λ d h p. p) (Ensures-attempt (Ensures-for_duration context raw t))

    Ensures-finish :
        (id : RuleId) (label : Text) (raw : RawRule y.Value) (t : Option Trigger)
        (c : Option Condition) (cs : List Command)
        → (H → Held t (IsTypedTrigger scope))
        → (H → Held c (IsTypedCondition scope))
        → (H → AreCommands y scope raw.then cs)
        → Ensures H
            (λ o. Held o (IsRuleOf y scope label raw id))
            (finish_rule y scope id label raw t c cs)
    unfolding finish_rule
    Ensures-finish id label raw (some t) (some c) cs ht hc hcs =
        Ensures-bind (Ensures-rule_duration _ raw.for_duration t) λ after. Ensures-pure _ λ h.
          let (t', et, pt) = ht h.0 in
          let (c', ec, pc) = hc h.0 in
          let same_trigger : t' ≡ t = cc et in
          let same_condition : c' ≡ c = cc ec in
          (
            _,
            refl,
            record {
              numbered = refl;
              named = refl;
              triggered = subst (IsTypedTrigger scope) same_trigger pt;
              conditioned = subst (IsTypedCondition scope) same_condition pc;
              commanded = hcs h.0;
              sustained = h.1;
            },
          )
    Ensures-finish id label raw none c cs ht hc hcs =
        Ensures-pure none λ h. let (t, impossible, p) = ht h in cc
    Ensures-finish id label raw (some t) none cs ht hc hcs =
        Ensures-pure none λ h. let (c, impossible, p) = hc h in cc

  module _ {H : Type 0} (wf : H → IsScope scope) where
    Ensures-rule :
        (id : RuleId) (label : Text) (raw : RawRule y.Value)
        → Ensures H (λ o. Held o (IsRuleOf y scope label raw id)) (lower_rule y scope id label raw)
    unfolding lower_rule
    Ensures-rule id label raw =
        Ensures-bind (Ensures-attempt (Ensures-trigger y scope _ wf raw.when)) λ t.
          Ensures-bind
            (Ensures-attempt
              (Ensures-weaken (λ h. h.0) (λ c h p. p) (Ensures-rule_condition wf _ raw.condition)))
            λ c. Ensures-bind (Ensures-commands y scope _ (λ h. wf h.0.0) raw.then) λ cs.
              Ensures-finish (λ h. wf h.0.0.0) id label raw t c cs (λ h. h.0.0.1) (λ h. h.0.1)
                (λ h. h.1)

  pub Ensures-rules :
      (raws : List (Text × RawRule y.Value)) {H : Type 0} (i : ℕ)
      → (H → IsScope scope)
      → Ensures H (AreRules y scope raws i) (lower_rules y scope raws i)
  unfolding lower_rules
  Ensures-rules [] i wf = Ensures-pure [] λ h. tt
  Ensures-rules ((label, raw) ∷ rest) i wf =
      Ensures-bind (Ensures-rule wf (to_u32 i) label raw) λ o.
        Ensures-bind (Ensures-rules rest (suc i) (λ h. wf h.0))
          λ more. Ensures-pure _ λ h. let (r, eq, p) = h.0.1 in rw eq (p, h.1)

-- Ids that count up.
abbrev Numbered : ℕ → List Rule → Type 0
Numbered i [] = Unit
Numbered i (r ∷ rs) = (r.id ≡ i) × Numbered (suc i) rs

-- A rule stands at its id, and later rules have later ids.
Numbered-find_rule :
    (rs : List Rule) (i : ℕ)
    → Numbered i rs
    → All (λ (r : Rule). (i ≤ r.id) × (find_rule rs r.id ≡ some r)) rs
Numbered-find_rule [] i h = tt
Numbered-find_rule (r ∷ rs) i h = (
  (omega (arith, h.0), ap (λ b. if b then some r else find_rule rs r.id) (beq_refl nat_eq r.id)),
  All-map _ _ rs
      (λ q (late, found).
        let apart : nat_beq r.id q.id ≡ false = ground (arith, h.0, late) in
        (omega (arith, late), ap (λ b. if b then some r else find_rule rs q.id) apart ∙ found))
      (Numbered-find_rule rs (suc i) h.1),
)

-- What rules of the file have in common.
module _ (y : Yaml) (scope : Scope) where
  AreRules-Numbered :
      (raws : List (Text × RawRule y.Value)) (i : ℕ) (rs : List Rule)
      → i + length raws < 2 ^ 32
      → AreRules y scope raws i rs
      → Numbered i rs
  AreRules-Numbered [] i [] small h = tt
  AreRules-Numbered ((label, raw) ∷ raws) i (r ∷ rs) small h = (
    h.0.numbered ∙ omega (arith, small),
    AreRules-Numbered raws (suc i) rs (omega (arith, small)) h.1,
  )
  AreRules-Numbered [] i (r ∷ rs) small h = elim h [ ]
  AreRules-Numbered (e ∷ raws) i [] small h = elim h [ ]

  IsDuration-edge :
      (o : Option Text) (t : Trigger) (d : Option Millis) (after : Millis)
      → IsDuration o t d
      → d ≡ some after
      → is_edge t ≡ true
  IsDuration-edge none t d after h given = let impossible : none ≡ some after = sym h ∙ given in cc
  IsDuration-edge (some raw) t d after h given = h.2.0

  AreRules-edges :
      (raws : List (Text × RawRule y.Value)) (i : ℕ) (rs : List Rule)
      → AreRules y scope raws i rs
      → All
          (λ (r : Rule). (after : Millis) → r.for_duration ≡ some after → is_edge r.trigger ≡ true)
          rs
  AreRules-edges [] i [] h = tt
  AreRules-edges ((label, raw) ∷ raws) i (r ∷ rs) h = (
    λ after. IsDuration-edge raw.for_duration r.trigger r.for_duration after h.0.sustained,
    AreRules-edges raws (suc i) rs h.1,
  )
  AreRules-edges [] i (r ∷ rs) h = elim h [ ]
  AreRules-edges (e ∷ raws) i [] h = elim h [ ]

  pub AreRules-IsFit :
      (raws : List (Text × RawRule y.Value)) (rs : List Rule)
      → length raws < 2 ^ 32
      → AreRules y scope raws 0 rs
      → IsFit rs
  AreRules-IsFit raws rs small h =
      All-zip rs (AreRules-edges raws 0 rs h)
        (Numbered-find_rule rs 0 (AreRules-Numbered raws 0 rs (omega (arith, small)) h))
        λ r edge (late, found) after given. (edge after given, found)
