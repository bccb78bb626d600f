-- ===== src/Engine/Steady/Sends.antt =====
-- Invariants of src/engine.rs through a dispatch, from the small changes that it makes.
use domiform.Base.{
  ℕ, ◌+◌, ◌<◌, ◌≡◌, true, false, Option, some, List, [], ◌∷◌, ◌>>=◌, arith, refl, set, ltb, nat_eq,
  Bool-cases, Option-cases, inl, inr, get_elem?,
}
use domiform.Base.Assoc.{insert, remove}
use domiform.Base.Text.{Text, text_eq}
use domiform.Model.Capability.{RuleId}
use domiform.Model.Command.{TimerKey, Command, Event}
use domiform.Adapters.Outcome.{DispatchOutcome, ok, transient, permanent}
use domiform.Engine.Parts.{
  Engine, Ports, Adapter, Notice, notify, enqueue, enqueue_all, dispatch_to, adapter_dispatch,
  scheduler_idx,
}
use domiform.Engine.Dispatch.{
  u32, u64, retry_key, give_up, schedule_retry, handle_outcome, target, no_adapter, dispatch_device,
  enqueue_ok, dispatch_scheduler, dispatch_at,
}
use domiform.Engine.Post.{any, Post, Post-bind, Post-dispatch, is_receipt}

pub record IsSteady {S N : Type 0} (P : Engine S N → Type 0) : Type 0 where
  pub noticed : (e : Engine S N) (n : Notice) → is_receipt n ≡ false → P e → P (notify e n)
  pub queued : (e : Engine S N) (q : List (Event × ℕ)) → P e → P (record e { queue = q })
  pub adapted : (e : Engine S N) (as' : List (Adapter S)) → P e → P (record e { adapters = as' })
  pub mirrored : (e : Engine S N) (nbs : List N) → P e → P (record e { northbound = nbs })
  pub timed : (e : Engine S N) (t : ℕ) → P e → P (record e { now = t })
  pub retrying :
      (e : Engine S N) (n a : ℕ) (c : Command)
      → P e
      → a < e.retry.max_attempts
      → P (record e {
        retry_counter = n;
        retries = insert (retry_key n) (record { command = c; attempt = u32 (a + 1) }) e.retries;
      })
  pub settled :
      (e : Engine S N) (k : TimerKey) → P e → P (record e { retries = remove k e.retries })
  pub released :
      (e : Engine S N) (id : RuleId) → P e → P (record e { pending_for = remove id e.pending_for })

pub whatever : {A : Type 0} (o : Option A) → Post (Unit {0}) (λ _. Unit) o
whatever o = ground arith

module _ {S N : Type 0} (p : Ports S N) (P : Engine S N → Type 0) (st : IsSteady P) where
  pub steady-dispatch_to :
      (e : Engine S N) (i : ℕ) (c : Command)
      → P e
      → Post Unit (λ (r : Engine S N × DispatchOutcome). P r.0) (dispatch_to p e i c)
  unfolding dispatch_to
  steady-dispatch_to e i c h =
      Post-bind Unit (λ r. P r.0) (λ _. Unit) (get_elem? e.adapters i) _ (whatever _)
        (λ a _.
          Post-bind Unit (λ r. P r.0) (λ _. Unit) (adapter_dispatch p a c e.now) _ (whatever _)
            (λ r _. st.adapted e (set e.adapters i r.0) h))

  pub steady-to_scheduler :
      (e : Engine S N) (c : Command)
      → P e
      → Post Unit P (dispatch_to p e scheduler_idx c >>= λ r. some r.0)
  steady-to_scheduler e c h =
      Post-bind Unit P (λ (r : Engine S N × DispatchOutcome). P r.0)
        (dispatch_to p e scheduler_idx c) _ (steady-dispatch_to e scheduler_idx c h) (λ r k. k)

  pub steady-enqueue_all :
      (evs : List Event) (e : Engine S N) (d : ℕ) → P e → P (enqueue_all e evs d)
  unfolding enqueue_all
  steady-enqueue_all [] e d h = h
  steady-enqueue_all (ev ∷ evs) e d h = steady-enqueue_all evs _ d (st.queued e _ h)

  steady-give_up :
      (e : Engine S N) (c : Command) (reason : Text) (a d : ℕ) → P e → P (give_up e c reason a d)
  unfolding give_up enqueue
  steady-give_up e c reason a d h = st.queued _ _ (st.noticed e _ refl h)

  steady-schedule_retry :
      (e : Engine S N) (c : Command) (a : ℕ)
      → P e
      → a < e.retry.max_attempts
      → Post Unit P (schedule_retry p e c a)
  unfolding schedule_retry notify
  steady-schedule_retry e c a h lt =
      steady-to_scheduler _ _
        (st.noticed _ _ refl (st.retrying e (u64 (e.retry_counter + 1)) a c h lt))

  steady-handle_outcome :
      (e : Engine S N) (o : DispatchOutcome) (c : Command) (a d : ℕ)
      → P e
      → Post Unit P (handle_outcome p e o c a d)
  unfolding handle_outcome notify
  steady-handle_outcome e (ok evs) c a d h = steady-enqueue_all evs e _ h
  steady-handle_outcome e (transient reason) c a d h =
      let h' = st.noticed e (Notice.dispatch_failed c reason true a) refl h in
      elim (Bool-cases (ltb a e.retry.max_attempts)) [
        | inl more ↦ rw (more, handle_outcome) (steady-schedule_retry _ c a h' (ground arith))
        | inr last ↦ rw (last, handle_outcome) (steady-give_up _ c reason a d h')
      ]
  steady-handle_outcome e (permanent reason) c a d h =
      steady-give_up _ c reason a d (st.noticed e (Notice.dispatch_failed c reason false a) refl h)

  steady-dispatch_device :
      (e : Engine S N) (c : Command) (a d : ℕ) → P e → Post Unit P (dispatch_device p e c a d)
  unfolding dispatch_device
  steady-dispatch_device e c a d h = elim (Option-cases (target p e c)) [
    | inl unbound ↦ rw (unbound, dispatch_device) (steady-handle_outcome e (no_adapter p) c a d h)
    | inr (i, found) ↦
        rw (found, dispatch_device)
          (Post-bind Unit P (λ (r : Engine S N × DispatchOutcome). P r.0) (dispatch_to p e i c) _
            (steady-dispatch_to e i c h) (λ r k. steady-handle_outcome r.0 r.1 c a d k))
  ]

  steady-enqueue_ok : (e : Engine S N) (o : DispatchOutcome) (d : ℕ) → P e → P (enqueue_ok p e o d)
  steady-enqueue_ok e (ok evs) d h = steady-enqueue_all evs e _ h
  steady-enqueue_ok e (transient _) d h = h
  steady-enqueue_ok e (permanent _) d h = h

  steady-dispatch_scheduler :
      (e : Engine S N) (c : Command) (d : ℕ) → P e → Post Unit P (dispatch_scheduler p e c d)
  unfolding dispatch_scheduler
  steady-dispatch_scheduler e c d h =
      Post-bind Unit P (λ (r : Engine S N × DispatchOutcome). P r.0)
        (dispatch_to p e scheduler_idx c) _ (steady-dispatch_to e scheduler_idx c h)
        (λ r k. steady-enqueue_ok r.0 r.1 d k)

  -- A dispatch keeps the invariant.
  pub steady-dispatch_at :
      (fuel : ℕ) (e : Engine S N) (c : Command) (a d : ℕ)
      → P e
      → Post Unit P (dispatch_at p fuel e c a d)
  steady-dispatch_at fuel e c a d h =
      Post-dispatch p Unit P (λ _ _. Unit) d
        (record {
          noticed = st.noticed;
          scheduled = λ e' c' h'. steady-dispatch_scheduler e' c' d h';
          sent = λ e' c' a' h'. steady-dispatch_device e' c' a' d h';
          deep = λ c' _. tt;
          resolved = λ f s c' _. tt;
          member = λ f scene e' cmds h' _ found. any cmds;
        })
        fuel e c a h tt
