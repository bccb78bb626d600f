-- ===== src/Adapters/Outcome.antt =====
-- `DispatchOutcome` of src/adapters/mod.rs.
use domiform.Base.{List, []}
use domiform.Base.Text.{Text}
use domiform.Model.Command.{Event}

pub data DispatchOutcome : Type 0 where
  ok : List Event → DispatchOutcome
  transient : Text → DispatchOutcome
  permanent : Text → DispatchOutcome

-- `DispatchOutcome::ok`
abbrev pub done : DispatchOutcome
done = ok []
