-- ===== src/Compile/Sound/Schedules.antt =====
-- The schedules of `resolve` in src/compile/resolve.rs.
use domiform.Base.{
  suc, ◌≡◌, refl, ap, Option, none, some, List, [], ◌∷◌, inl, inr, Option-cases, All, length,
}
use domiform.Base.Assoc.{Assoc}
use domiform.Base.Text.{Text, text_eq}
use domiform.Model.Capability.{ScheduleId}
use domiform.Compile.Ast.{RawSchedule}
use domiform.Compile.Plugins.{Calendar}
use domiform.Compile.Ensures.{
  Ensures, Ensures-pure, Ensures-bind, Ensures-fail, Ensures-expect, Ensures-attempt,
}
use domiform.Compile.Typed.References.{Any}
use domiform.Compile.Resolve.Schedules.{
  CompiledSchedule, desugar_time, desugared, only_form, check_cron, resolve_schedule,
  resolve_schedules,
}

module _ {H : Type 0} where
  Ensures-desugared :
      (context : Text) (o : Option Text) (dow : Text) → Ensures H Any (desugared context o dow)
  unfolding desugared desugar_time
  Ensures-desugared context none dow = Ensures-pure [] λ h. tt
  Ensures-desugared context (some hhmm) dow =
      Ensures-bind {P = Any}
        (Ensures-bind {P = Any} (Ensures-expect context _ _ _ λ e eq h. tt)
          λ (h, m). Ensures-pure _ λ held. tt)
        λ cron. Ensures-pure _ λ h. tt

  Ensures-form : (context : Text) (forms : List Text) → Ensures H Any (only_form context forms)
  unfolding only_form
  Ensures-form context (cron ∷ []) = Ensures-pure cron λ h. tt
  Ensures-form context [] = Ensures-fail context _ _
  Ensures-form context (a ∷ b ∷ rest) = Ensures-fail context _ _

module _ (calendar : Calendar) where
  pub Ensures-schedule :
      {H : Type 0} (label : Text) (raw : RawSchedule)
      → Ensures H (λ cron. calendar.cron_error cron ≡ none) (resolve_schedule calendar label raw)
  unfolding resolve_schedule check_cron
  Ensures-schedule label raw = Ensures-bind (Ensures-desugared _ raw.daily _) λ daily.
      Ensures-bind (Ensures-desugared _ raw.weekday _) λ weekday.
        Ensures-bind (Ensures-desugared _ raw.weekend _) λ weekend.
          Ensures-bind (Ensures-form _ _) λ cron. elim (Option-cases (calendar.cron_error cron)) [
            | inl p ↦ rw (check_cron, p) (Ensures-pure cron λ h. p)
            | inr (e, p) ↦ rw (check_cron, p) (Ensures-fail _ _ _)
          ]

  abbrev pub AreCrons : List CompiledSchedule → Type 0
  AreCrons schedules = All (λ (s : CompiledSchedule). calendar.cron_error s.cron ≡ none) schedules

  -- Each schedule resolves to an expression that the library parses.
  pub Ensures-schedules :
      (raws : List (Text × RawSchedule)) {H : Type 0} (index : Assoc Text ScheduleId)
      → Ensures H
          (λ (schedules, index'). AreCrons schedules × (length schedules ≡ length raws))
          (resolve_schedules calendar raws index)
  unfolding resolve_schedules
  Ensures-schedules [] index = Ensures-pure ([], index) λ h. (tt, refl)
  Ensures-schedules ((label, raw) ∷ rest) index =
      Ensures-bind (Ensures-attempt (Ensures-schedule label raw)) λ cron.
        Ensures-bind (Ensures-schedules rest _) λ (more, index').
          Ensures-pure (_, index')
            λ h. let (c, eq, good) = h.0.1 in rw eq ((good, h.1.0), ap suc h.1.1)
