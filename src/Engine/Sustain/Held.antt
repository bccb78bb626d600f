-- ===== src/Engine/Sustain/Held.antt =====
-- The pending `for:` timers of src/engine.rs while one report is handled.
use domiform.Base.{◌≡◌, inl, inr, List, [], ◌∷◌, nat_eq, Option-cases, refl, ◌∙◌}
use domiform.Base.Assoc.{lookup}
use domiform.Base.Text.{text_eq}
use domiform.State.{StateStore}
use domiform.Model.Capability.{RuleId}
use domiform.Rule.Rules.{Rule}
use domiform.Engine.Parts.{Engine, Ports, notify}
use domiform.Engine.Post.{Post, Post-bind}
use domiform.Engine.Dispatch.{for_each}
use domiform.Engine.Timers.{sustained, cancel_for}
use domiform.Engine.Steady.Sends.{IsSteady, steady-to_scheduler}
use domiform.Engine.Sustain.Pending.{Only, Only-remove, Only-drop, Only-absent}

-- The same while a report is handled, with the rules and the store fixed and some timers left to cancel.
pub record Holds {S N : Type 0} (rules : List Rule) (s : StateStore) (ids : List RuleId)
    (e : Engine S N) : Type 0 where
  pub ruled : e.rules ≡ rules
  pub stored : e.state ≡ s
  pub only : Only (sustained rules s) ids e.pending_for

module _ {S N : Type 0} (rules : List Rule) (s : StateStore) (ids : List RuleId) where
  abbrev pub Held : Engine S N → Type 0
  Held e = Holds rules s ids e

  hold :
      {e e' : Engine S N}
      → Held e
      → e'.rules ≡ e.rules
      → e'.state ≡ e.state
      → Only (sustained rules s) ids e'.pending_for
      → Held e'
  hold h r t o = record { ruled = r ∙ h.ruled; stored = t ∙ h.stored; only = o }

  pub Held-IsSteady : IsSteady Held
  unfolding notify
  Held-IsSteady = record {
    noticed = λ e n quiet h. hold h refl refl h.only;
    queued = λ e q h. hold h refl refl h.only;
    adapted = λ e as' h. hold h refl refl h.only;
    mirrored = λ e nbs h. hold h refl refl h.only;
    timed = λ e t h. hold h refl refl h.only;
    retrying = λ e n a c h lt. hold h refl refl h.only;
    settled = λ e k h. hold h refl refl h.only;
    released =
        λ e id h. hold h refl refl (Only-remove (sustained rules s) id ids e.pending_for h.only);
  }

module _ {S N : Type 0} (p : Ports S N) (rules : List Rule) (s : StateStore) where
  Held-cancel_for :
      (e : Engine S N) (id : RuleId) (ids : List RuleId)
      → Held rules s (id ∷ ids) e
      → Post Unit (Held rules s ids) (cancel_for p e id)
  unfolding cancel_for
  Held-cancel_for e id ids h = elim (Option-cases (lookup id e.pending_for)) [
    | inl absent ↦
        rw (absent, cancel_for)
          (record {
            ruled = h.ruled;
            stored = h.stored;
            only = Only-absent (sustained rules s) id ids e.pending_for absent h.only;
          })
    | inr (prev, found) ↦
        rw (found, cancel_for)
          (steady-to_scheduler p (Held rules s ids) (Held-IsSteady rules s ids) _ _ (record {
            ruled = h.ruled;
            stored = h.stored;
            only = Only-drop (sustained rules s) id ids e.pending_for h.only;
          }))
  ]

  -- The timers to cancel are cancelled one by one.
  pub Held-cancel :
      (ids : List RuleId) (e : Engine S N)
      → Held rules s ids e
      → Post Unit (Held rules s []) (for_each (cancel_for p) e ids)
  unfolding for_each
  Held-cancel [] e h = h
  Held-cancel (id ∷ ids) e h =
      Post-bind Unit (Held rules s []) (Held rules s ids) (cancel_for p e id) _
        (Held-cancel_for e id ids h) (λ e' h'. Held-cancel ids e' h')
