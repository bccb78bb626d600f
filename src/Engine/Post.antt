-- ===== src/Engine/Post.antt =====
-- Postconditions of the engine's computations, and the induction over `dispatch_at` that the proofs
-- about single events share.
use domiform.Base.{
  ℕ, zero, suc, ◌≡◌, Bool, true, false, Option, none, some, List, [], ◌∷◌, ◌>>=◌, All, ◌≡◌, refl,
  length, nat_eq, Option-cases, subst, inl, inr,
}
use domiform.Base.Assoc.{lookup}
use domiform.State.{StateStore}
use domiform.Model.Command.{Command}
use domiform.Engine.Parts.{Engine, Ports, Notice, notify}
use domiform.Engine.Intent.{resolve_implicit_state_command}
use domiform.Engine.Dispatch.{
  for_each, dispatch_scheduler, dispatch_device, dispatch_resolved, dispatch_at,
}

-- A result satisfies `P`. With `B = ⊥` there is a result; with `B = Unit` there may be none.
abbrev pub Post : {A : Type 0} → Type 0 → (A → Type 0) → Option A → Type 0
Post B P none = B
Post B P (some a) = P a

module _ {A E : Type 0} (B : Type 0) (P : E → Type 0) where
  pub Post-bind :
      (Q : A → Type 0) (o : Option A) (f : A → Option E)
      → Post B Q o
      → ((a : A) → Q a → Post B P (f a))
      → Post B P (o >>= f)
  Post-bind Q none f h k = h
  Post-bind Q (some a) f h k = k a h

module _ {A E : Type 0} (B : Type 0) (P : E → Type 0) (C : A → Type 0) where
  pub Post-for_each :
      (body : E → A → Option E)
      → ((e : E) (x : A) → P e → C x → Post B P (body e x))
      → (e : E) (xs : List A) → P e
      → All C xs
      → Post B P (for_each body e xs)
  unfolding for_each
  Post-for_each body step e [] h c = h
  Post-for_each body step e (x ∷ xs) h c =
      Post-bind B P P (body e x) (λ e'. for_each body e' xs) (step e x h c.0)
        (λ e' h'. Post-for_each body step e' xs h' c.1)

pub Post-map :
    {A : Type 0} (B : Type 0) (P Q : A → Type 0) (o : Option A)
    → ((a : A) → P a → Q a)
    → Post B P o
    → Post B Q o
Post-map B P Q none f h = h
Post-map B P Q (some a) f h = f a h

pub Post-some :
    {A : Type 0} {P : A → Type 0} (o : Option A) → Post ⊥ P o → (a : A) × (o ≡ some a) × P a
Post-some none h = absurd h
Post-some (some a) h = (a, refl, h)

pub Post-value :
    {A : Type 0} (P : A → Type 0) (o : Option A) (a : A) → Post Unit P o → o ≡ some a → P a
Post-value P none a h e = cc
Post-value P (some b) a h e = let same : b ≡ a = cc in subst P same h

-- Nothing is asked of the members.
pub any : {A : Type 0} (xs : List A) → All (λ _. Unit {0}) xs
any [] = tt
any (x ∷ xs) = (tt, any xs)

-- The notices of received events: the event log.
abbrev pub is_receipt : Notice → Bool
is_receipt (Notice.event_received _ _) = true
is_receipt _ = false

-- What the induction needs of an invariant `P` and of the commands that fit a depth of recursion.
pub record Steps {S N : Type 0} (p : Ports S N) (B : Type 0) (P : Engine S N → Type 0)
    (C : ℕ → Command → Type 0) (d : ℕ) : Type 0 where
  pub noticed : (e : Engine S N) (n : Notice) → is_receipt n ≡ false → P e → P (notify e n)
  pub scheduled : (e : Engine S N) (c : Command) → P e → Post B P (dispatch_scheduler p e c d)
  pub sent : (e : Engine S N) (c : Command) (a : ℕ) → P e → Post B P (dispatch_device p e c a d)
  pub deep : (c : Command) → C zero c → B
  pub resolved :
      (f : ℕ) (s : StateStore) (c : Command) → C f c → C f (resolve_implicit_state_command s c)
  pub member :
      (f scene : ℕ) (e : Engine S N) (cmds : List Command)
      → P e
      → C (suc f) (Command.activate_scene scene)
      → lookup scene e.scenes ≡ some cmds
      → All (C f) cmds

module _ {S N : Type 0} (p : Ports S N) (B : Type 0) (P : Engine S N → Type 0)
    (C : ℕ → Command → Type 0) (d : ℕ) (st : Steps p B P C d) where
  Post-scene :
      (f : ℕ) (each : Engine S N → Command → Option (Engine S N))
      → ((e : Engine S N) (c : Command) → P e → C f c → Post B P (each e c))
      → (e : Engine S N) (scene a : ℕ) → P e
      → C (suc f) (Command.activate_scene scene)
      → Post B P (dispatch_resolved p each e (Command.activate_scene scene) a d)
  unfolding dispatch_resolved
  Post-scene f each step e scene a h c = elim (Option-cases (lookup scene e.scenes)) [
    | inl q ↦ rw (q, dispatch_resolved) h
    | inr (cmds, q) ↦
        rw (q, dispatch_resolved)
          (Post-for_each B P (C f) each step (notify e (Notice.scene_expanded scene (length cmds)))
            cmds (st.noticed e (Notice.scene_expanded scene (length cmds)) refl h)
            (st.member f scene e cmds h c q))
  ]

  Post-resolved :
      (f : ℕ) (each : Engine S N → Command → Option (Engine S N))
      → ((e : Engine S N) (c : Command) → P e → C f c → Post B P (each e c))
      → (e : Engine S N) (c : Command) (a : ℕ) → P e
      → C (suc f) c
      → Post B P (dispatch_resolved p each e c a d)
  unfolding dispatch_resolved
  Post-resolved f each step e (Command.activate_scene scene) a h c =
      Post-scene f each step e scene a h c
  Post-resolved f each step e (Command.schedule_timer k t) a h c =
      st.scheduled e (Command.schedule_timer k t) h
  Post-resolved f each step e (Command.cancel_timer k) a h c =
      st.scheduled e (Command.cancel_timer k) h
  Post-resolved f each step e cmd a h c = st.sent e cmd a h

  pub Post-dispatch :
      (f : ℕ) (e : Engine S N) (c : Command) (a : ℕ)
      → P e
      → C f c
      → Post B P (dispatch_at p f e c a d)
  unfolding dispatch_at
  Post-dispatch zero e c a h k = st.deep c k
  Post-dispatch (suc f) e c a h k =
      let r = resolve_implicit_state_command e.state c in
      Post-resolved f (λ e' c'. dispatch_at p f e' c' 1 d)
        (λ e' c' h' k'. Post-dispatch f e' c' 1 h' k') (notify e (Notice.command_dispatched r d)) r
        a (st.noticed e (Notice.command_dispatched r d) refl h) (st.resolved (suc f) e.state c k)
