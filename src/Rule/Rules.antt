-- ===== src/Rule/Rules.antt =====
-- `Rule` of src/rule.rs and its builders.
use domiform.Base.{Option, none, List, []}
use domiform.Base.Text.{Text}
use domiform.Model.Capability.{RuleId, Millis}
use domiform.Model.Command.{Command}
use domiform.Rule.Trigger.{Trigger}
use domiform.Rule.Condition.{Condition}

pub record Rule : Type 0 where
  pub id : RuleId
  pub name : Text
  pub trigger : Trigger
  pub condition : Condition
  pub commands : List Command
  pub for_duration : Option Millis

abbrev pub new : RuleId → Trigger → Condition → List Command → Rule
new id trigger condition commands = record {
  id = id;
  name = [];
  trigger = trigger;
  condition = condition;
  commands = commands;
  for_duration = none;
}

abbrev pub with_name : Rule → Text → Rule
with_name rule name = record rule { name = name }

abbrev pub with_for_duration : Rule → Option Millis → Rule
with_for_duration rule for_duration = record rule { for_duration = for_duration }
