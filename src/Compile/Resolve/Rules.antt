-- ===== src/Compile/Resolve/Rules.antt =====
-- The scenes and the rules of `resolve` in src/compile/resolve.rs.
use domiform.Base.{ℕ, suc, Option, none, some, List, [], ◌∷◌, ◌++◌, length}
use domiform.Base.Assoc.{Assoc, insert, lookup}
use domiform.Base.Text.{Text, bytes, text_eq}
use domiform.Model.Capability.{SceneId, RuleId, Millis}
use domiform.Model.Command.{Command}
use domiform.Rule.Trigger.{Trigger}
use domiform.Rule.Condition.{Condition, always}
use domiform.Rule.Rules
use domiform.Rule.Rules.{Rule, with_name, with_for_duration}
use domiform.Compile.Ast.{Yaml, RawRule}
use domiform.Compile.Lowering.{Scope, Lowering, pure, ◌>>=◌, attempt, lift}
use domiform.Compile.Triggers.{trigger}
use domiform.Compile.Conditions.{condition}
use domiform.Compile.Commands.{commands, for_duration}
use domiform.Compile.Resolve.Adapters.{to_u32}
use domiform.Compile.Resolve.Devices.{cons_some}

pub record CompiledScene : Type 0 where
  pub id : SceneId
  pub name : Text
  pub commands : List Command

-- Scenes have their ids before any is lowered.
unfoldable pub index_scenes :
    {A : Type 0} → List (Text × A) → Assoc Text SceneId → Assoc Text SceneId
index_scenes [] index = index
index_scenes ((label, raw) ∷ rest) index =
    index_scenes rest (insert label (to_u32 (length index)) index)

abbrev pub scene_context : Text → Text
scene_context label = bytes "scene '" ++ label ++ bytes "'"

abbrev pub rule_context : Text → Text
rule_context label = bytes "rule '" ++ label ++ bytes "'"

module _ (y : Yaml) (scope : Scope) where
  -- `scene_index[name]` panics on a missing key.
  unfoldable pub lower_scenes : List (Text × List y.Value) → Lowering (List CompiledScene)
  lower_scenes [] = pure []
  lower_scenes ((label, raw) ∷ rest) = do
    cs ← commands y scope (scene_context label) raw
    id ← lift (lookup label scope.scene_index)
    more ← lower_scenes rest
    pure (record { id = id; name = label; commands = cs } ∷ more)

  unfoldable pub rule_condition : Text → Option y.Value → Lowering Condition
  rule_condition context none = pure always
  rule_condition context (some c) = condition y scope context c

  unfoldable pub rule_duration : Text → Option Text → Trigger → Lowering (Option Millis)
  rule_duration context none t = pure none
  rule_duration context (some raw) t = attempt (for_duration context raw t)

  unfoldable pub finish_rule :
      RuleId
      → Text
      → RawRule y.Value
      → Option Trigger
      → Option Condition
      → List Command
      → Lowering (Option Rule)
  finish_rule id label raw (some t) (some c) cs = do
    after ← rule_duration (rule_context label) raw.for_duration t
    pure (some (with_for_duration (with_name (Rules.new id t c cs) label) after))
  finish_rule id label raw _ _ cs = pure none

  unfoldable pub lower_rule : RuleId → Text → RawRule y.Value → Lowering (Option Rule)
  lower_rule id label raw = do
    t ← attempt (trigger y scope (rule_context label) raw.when)
    c ← attempt (rule_condition (rule_context label) raw.condition)
    cs ← commands y scope (rule_context label) raw.then
    finish_rule id label raw t c cs

  -- `i` counts the rules before, those that were refused among them.
  unfoldable pub lower_rules : List (Text × RawRule y.Value) → ℕ → Lowering (List Rule)
  lower_rules [] i = pure []
  lower_rules ((label, raw) ∷ rest) i = do
    r ← lower_rule (to_u32 i) label raw
    more ← lower_rules rest (suc i)
    pure (cons_some r more)
