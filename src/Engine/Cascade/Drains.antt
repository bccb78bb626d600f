-- ===== src/Engine/Cascade/Drains.antt =====
-- The queue of src/engine.rs, worked off depth by depth.
use domiform.Base.{
  ℕ, zero, suc, ◌+◌, ◌≤◌, ◌<◌, ◌^◌, ◌≡◌, true, some, List, [], ◌∷◌, ◌++◌, All, length, arith,
  nat_eq, refl, sym, ◌∙◌, inl, inr, ltb, Bool-cases, subst, append-nil, append_assoc, All-append,
}
use domiform.Base.Assoc.{lookup}
use domiform.Model.Capability.{SceneId}
use domiform.Model.Command.{Command, Event}
use domiform.Engine.Parts.{Engine, Ports, Notice, notify}
use domiform.Engine.Dispatch.{u32}
use domiform.Engine.Loop.{process, drain}
use domiform.Engine.Post.{Post-some}
use domiform.Engine.Cascade.Live.{
  is_timer, OnlySchedulerTimes, height, HeadIsScheduler, Alive, Produced,
}
use domiform.Engine.Cascade.Timed.{process-Alive}

-- The engine has its scheduler, every bound device has an adapter, scenes nest to a depth below
-- `fuel`, which `rank` measures, and depths fit in u32.
pub record IsWired {S N : Type 0} (rank : SceneId → ℕ) (fuel : ℕ) (e : Engine S N) : Type 0 where
  pub first : HeadIsScheduler e.adapters
  pub bound : (dev i : ℕ) → lookup dev e.device_to_adapter ≡ some i → i < length e.adapters
  pub ranked :
      (scene : SceneId) (cmds : List Command)
      → lookup scene e.scenes ≡ some cmds
      → All (λ c. height rank c ≤ rank scene) cmds
  pub shallow : (scene : SceneId) → suc (rank scene) < fuel
  pub room : 0 < fuel
  pub narrow : e.max_cascade_depth + 1 < 2 ^ 32

-- An entry of the queue at depth `D` or deeper, at most one past the cap. Timers come from ticks.
abbrev pub IsEntry : ℕ → ℕ → Event × ℕ → Type 0
IsEntry cap D (ev, n) = (D ≤ n) × (n ≤ cap + 1) × (is_timer ev ≡ true → n ≡ 0)

fresh_entries :
    (limit D n : ℕ) (xs : List (Event × ℕ))
    → limit + 1 < 2 ^ 32
    → D ≤ n
    → n ≤ limit
    → All (Produced (u32 (n + 1))) xs
    → All (IsEntry limit (suc D)) xs
fresh_entries limit D n [] narrow le small h = tt
fresh_entries limit D n ((ev, m) ∷ xs) narrow le small h = (
  (omega (arith, h.0.1), omega (arith, h.0.1), λ t. cc (h.0.0, t)),
  fresh_entries limit D n xs narrow le small h.1,
)

drain_empty :
    {S N : Type 0} (p : Ports S N) (fuel : ℕ) (e : Engine S N)
    → e.queue ≡ []
    → drain p fuel 1 e ≡ some e
unfolding drain
drain_empty p fuel e h = ground arith

no_entries : (limit D : ℕ) (q : List (Event × ℕ)) → D ≡ limit + 2 → All (IsEntry limit D) q → q ≡ []
no_entries limit D [] e h = refl
no_entries limit D (x ∷ q) e h = absurd (omega (arith, h.0.0, h.0.1))

module _ {S N : Type 0} (p : Ports S N) (rank : SceneId → ℕ) (fuel : ℕ) where
  -- The loop ends with an empty queue and a wired engine.
  abbrev pub Ends : Engine S N → Type 0
  Ends e =
      (rounds : ℕ) × (e' : Engine S N) × (drain p fuel rounds e ≡ some e')
      × (e'.queue ≡ [])
      × IsWired rank fuel e'
      × (e'.max_cascade_depth ≡ e.max_cascade_depth)

module _ {S N : Type 0} (rank : SceneId → ℕ) (fuel limit : ℕ) where
  wired→Alive :
      (d : ℕ) (e : Engine S N)
      → IsWired rank fuel e
      → e.max_cascade_depth ≡ limit
      → Alive rank fuel limit d e.queue e
  wired→Alive d e w c = record {
    first = w.first;
    bound = w.bound;
    ranked = w.ranked;
    shallow = w.shallow;
    room = w.room;
    capped = c;
    fresh = [];
    queued = sym (append-nil e.queue);
    produced = tt;
  }

  Alive→wired :
      (d : ℕ) (q : List (Event × ℕ)) (e : Engine S N)
      → limit + 1 < 2 ^ 32
      → Alive rank fuel limit d q e
      → IsWired rank fuel e
  Alive→wired d q e narrow h = record {
    first = h.first;
    bound = h.bound;
    ranked = h.ranked;
    shallow = h.shallow;
    room = h.room;
    narrow = omega (arith, h.capped);
  }

module _ {S N : Type 0} (p : Ports S N) (only : OnlySchedulerTimes p) (rank : SceneId → ℕ)
    (fuel : ℕ) where
  -- One popped event, then the rest.
  Ends-after :
      (e : Engine S N) (ev : Event) (n : ℕ) (rest : List (Event × ℕ)) (e1 : Engine S N)
      → e.queue ≡ (ev, n) ∷ rest
      → process p fuel (record e { queue = rest }) ev n ≡ some e1
      → e1.max_cascade_depth ≡ e.max_cascade_depth
      → Ends p rank fuel e1
      → Ends p rank fuel e
  unfolding drain
  Ends-after e ev n rest e1 front made same (rounds, e', run, empty, wired, kept) =
      (suc rounds, e', rw (front, drain, made) run, empty, wired, kept ∙ same)

  rewire :
      (e : Engine S N) (q : List (Event × ℕ)) (t : List Notice)
      → IsWired rank fuel e
      → IsWired rank fuel (record e { queue = q; trace = t })
  rewire e q t w = record {
    first = w.first;
    bound = w.bound;
    ranked = w.ranked;
    shallow = w.shallow;
    room = w.room;
    narrow = w.narrow;
  }

  -- The entries `xs` at depth `D` are worked off; what they produce joins the deeper `ys`.
  row :
      (limit D : ℕ) (xs ys : List (Event × ℕ)) (e : Engine S N)
      → IsWired rank fuel e
      → e.max_cascade_depth ≡ limit
      → e.queue ≡ xs ++ ys
      → All (IsEntry limit D) xs
      → All (IsEntry limit (suc D)) ys
      → ((e' : Engine S N)
          → IsWired rank fuel e'
          → e'.max_cascade_depth ≡ limit
          → All (IsEntry limit (suc D)) e'.queue
          → Ends p rank fuel e')
      → Ends p rank fuel e
  unfolding process notify
  row limit D [] ys e w c front hx hy next =
      next e w c (subst (All (IsEntry limit (suc D))) (sym front) hy)
  row limit D ((ev, n) ∷ xs) ys e w c front hx hy next = elim (Bool-cases (ltb limit n)) [
    | inl deep ↦
        let dropped : Engine S N =
          notify (record e { queue = xs ++ ys }) (Notice.cascade_dropped ev n) in
        Ends-after e ev n (xs ++ ys) dropped front (rw (c, process, deep) refl) refl
          (row limit D xs ys dropped (rewire e _ _ w) c refl hx.1 hy next)
    | inr fine ↦
        let popped : Engine S N = record e { queue = xs ++ ys } in
        let alive : Alive rank fuel limit n (xs ++ ys) popped =
          wired→Alive rank fuel limit n popped (rewire e _ _ w) c in
        let (e1, made, alive1) =
          Post-some (process p fuel popped ev n)
            (process-Alive p only rank fuel limit (xs ++ ys) popped ev n hx.0.2 alive) in
        let narrow : limit + 1 < 2 ^ 32 = omega (arith, w.narrow, c) in
        let shallow : n ≤ limit = ground arith in
        Ends-after e ev n (xs ++ ys) e1 front made (alive1.capped ∙ sym c) (
          row limit D xs (ys ++ alive1.fresh) e1
            (Alive→wired rank fuel limit n (xs ++ ys) e1 narrow alive1) alive1.capped
            (alive1.queued ∙ append_assoc xs ys alive1.fresh) hx.1
            (All-append (IsEntry limit (suc D)) ys alive1.fresh hy
              (fresh_entries limit D n alive1.fresh narrow hx.0.0 shallow alive1.produced))
            next)
  ]

  -- `k` depths are left.
  Ends-from :
      (limit k D : ℕ) (e : Engine S N)
      → D + k ≡ limit + 2
      → IsWired rank fuel e
      → e.max_cascade_depth ≡ limit
      → All (IsEntry limit D) e.queue
      → Ends p rank fuel e
  Ends-from limit zero D e level w c h =
      let empty = no_entries limit D e.queue (omega arith) h in
      (1, e, drain_empty p fuel e empty, empty, w, refl)
  Ends-from limit (suc k) D e level w c h =
      row limit D e.queue [] e w c (sym (append-nil e.queue)) h tt
        (λ e' w' c' h'. Ends-from limit k (suc D) e' (omega arith) w' c' h')

  -- The loop ends from every wired engine whose queue holds entries at most one past the cap.
  pub drain-Ends :
      (e : Engine S N)
      → IsWired rank fuel e
      → All (IsEntry e.max_cascade_depth 0) e.queue
      → Ends p rank fuel e
  drain-Ends e w h =
      Ends-from e.max_cascade_depth (e.max_cascade_depth + 2) 0 e (omega arith) w refl h
