-- ===== src/Compile/Resolve/Schedules.antt =====
-- The schedules of `resolve` in src/compile/resolve.rs, with `resolve_schedule` and `desugar_time`.
use domiform.Base.{ℕ, Option, none, some, List, [], ◌∷◌, ◌++◌, length}
use domiform.Base.Assoc.{Assoc, insert}
use domiform.Base.Text.{Text, bytes, text_eq, decimal}
use domiform.Model.Capability.{ScheduleId}
use domiform.Compile.Ast.{RawSchedule}
use domiform.Compile.Scalars.{hour_minute}
use domiform.Compile.Lowering.{Lowering, pure, ◌>>=◌, expect, fail, attempt}
use domiform.Compile.Plugins.{Calendar}
use domiform.Compile.Resolve.Adapters.{to_u32}

pub record CompiledSchedule : Type 0 where
  pub id : ScheduleId
  pub name : Text
  pub cron : Text

-- `"{m} {h} * * {dow}"`
unfoldable pub cron_of : ℕ → ℕ → Text → Text
cron_of h m dow = decimal m ++ bytes " " ++ decimal h ++ bytes " * * " ++ dow

abbrev pub written : Option Text → List Text
written none = []
written (some expr) = expr ∷ []

module _ (context : Text) where
  unfoldable pub desugar_time : Text → Text → Lowering Text
  desugar_time hhmm dow = do
    (h, m) ←
        expect context (hour_minute hhmm) (bytes "E_BAD_TIME")
          (bytes "invalid time '" ++ hhmm ++ bytes "' (expected HH:MM)")
    pure (cron_of h m dow)

  unfoldable pub desugared : Option Text → Text → Lowering (List Text)
  desugared none dow = pure []
  desugared (some hhmm) dow = do cron ← desugar_time hhmm dow; pure (cron ∷ [])

  unfoldable pub only_form : List Text → Lowering Text
  only_form (cron ∷ []) = pure cron
  only_form [] =
      fail context (bytes "E_BAD_SCHEDULE")
        (bytes "schedule needs one of: cron, daily, weekday, weekend")
  only_form _ =
      fail context (bytes "E_BAD_SCHEDULE")
        (bytes "schedule must set exactly one of: cron, daily, weekday, weekend")

abbrev pub schedule_context : Text → Text
schedule_context label = bytes "schedule '" ++ label ++ bytes "'"

abbrev pub add_schedule :
    ScheduleId → Text → Option Text → List CompiledSchedule → List CompiledSchedule
add_schedule id label none schedules = schedules
add_schedule id label (some cron) schedules =
    record { id = id; name = label; cron = cron } ∷ schedules

module _ (calendar : Calendar) where
  unfoldable pub check_cron : Text → Text → Lowering Text
  check_cron context cron = elim (calendar.cron_error cron) [
    | none ↦ pure cron
    | some e ↦
        fail context (bytes "E_BAD_CRON") (bytes "invalid cron '" ++ cron ++ bytes "': " ++ e)
  ]

  unfoldable pub resolve_schedule : Text → RawSchedule → Lowering Text
  resolve_schedule label raw = do
    daily ← desugared (schedule_context label) raw.daily (bytes "*")
    weekday ← desugared (schedule_context label) raw.weekday (bytes "1-5")
    weekend ← desugared (schedule_context label) raw.weekend (bytes "0,6")
    cron ← only_form (schedule_context label) (written raw.cron ++ daily ++ weekday ++ weekend)
    check_cron (schedule_context label) cron

  -- A schedule keeps its id where it does not resolve.
  unfoldable pub resolve_schedules :
      List (Text × RawSchedule)
      → Assoc Text ScheduleId
      → Lowering (List CompiledSchedule × Assoc Text ScheduleId)
  resolve_schedules [] index = pure ([], index)
  resolve_schedules ((label, raw) ∷ rest) index = do
    cron ← attempt (resolve_schedule label raw)
    (more, index') ← resolve_schedules rest (insert label (to_u32 (length index)) index)
    pure (add_schedule (to_u32 (length index)) label cron more, index')
