-- ===== src/Engine/Host.antt =====
-- The calls of a host on the engine of src/engine.rs, and runs of them.
use domiform.Base.{ℕ, ◌≡◌, Option, some, List, [], ◌∷◌}
use domiform.Model.Capability.{Millis}
use domiform.Model.Command.{Event}
use domiform.Engine.Parts.{Engine, Ports}
use domiform.Engine.Drive.{inject, advance, start}

pub data Call : Type 0 where
  starting : Call
  injecting : (ev : Event) → Call
  advancing : (dt : Millis) → Call

module _ {S N : Type 0} (p : Ports S N) where
  unfoldable pub call : ℕ → ℕ → Engine S N → Call → Option (Engine S N)
  call fuel rounds e starting = start p fuel rounds e
  call fuel rounds e (injecting ev) = inject p fuel rounds e ev
  call fuel rounds e (advancing dt) = advance p fuel rounds e dt

-- The calls of the list, one after the other, each of which returns.
pub data Run {S N : Type 0} (p : Ports S N) (fuel : ℕ)
    : Engine S N → List Call → Engine S N → Type 0 where
  finished : {e : Engine S N} → Run p fuel e [] e
  next :
      {e e1 e2 : Engine S N} {c : Call} {cs : List Call} (rounds : ℕ)
      → call p fuel rounds e c ≡ some e1
      → Run p fuel e1 cs e2
      → Run p fuel e (c ∷ cs) e2
