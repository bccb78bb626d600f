-- ===== src/Engine/Scenes.antt =====
-- The expansion of scenes in src/engine.rs.
use domiform.Base.{ℕ, zero, suc, ◌≡◌, none, some, List, ◌∷◌, refl, arith, nat_eq, length}
use domiform.Base.Assoc.{lookup}
use domiform.Model.Capability.{SceneId}
use domiform.Model.Command.{Command}
use domiform.Engine.Parts.{Engine, Ports, Notice, notify}
use domiform.Engine.Intent.{resolve_implicit_state_command}
use domiform.Engine.Dispatch.{for_each, dispatch_resolved, dispatch_at}

-- A scene whose first command activates the scene itself is never expanded to the end: whatever the engine,
-- its cascade bound among its fields, the attempt and the causal depth, no depth of recursion is enough.
pub self_scene_diverges :
    {S N : Type 0} (p : Ports S N) (e : Engine S N) (scene : SceneId) (rest : List Command)
    (fuel attempt depth : ℕ)
    → lookup scene e.scenes ≡ some (Command.activate_scene scene ∷ rest)
    → dispatch_at p fuel e (Command.activate_scene scene) attempt depth ≡ none
unfolding dispatch_at dispatch_resolved resolve_implicit_state_command for_each notify
self_scene_diverges p e scene rest zero attempt depth found = refl
self_scene_diverges p e scene rest (suc fuel) attempt depth found = ground (
  arith,
  found,
  self_scene_diverges p
      (notify (notify e (Notice.command_dispatched (Command.activate_scene scene) depth))
        (Notice.scene_expanded scene (length (Command.activate_scene scene ∷ rest))))
      scene rest fuel 1 depth found,
)
