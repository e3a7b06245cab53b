-- ===== src/Database/Save.antt =====
-- `save` of core/dtss_db.h: a file is written anew, or a series that may be merged into the old one is.
use shyft.Prelude.{Bool, true, false, ◌||◌, not, Option, none, some}
use shyft.Prelude.Tests.{◌==◌, if◌then◌else◌}
use shyft.Prelude.Int.{pos, ◌-ℤ◌, eqb_ℤ, mod_ℤ}
use shyft.Prelude.Outcome.{Outcome, ok, throw, undefined, runtime_error, ◌>>=◌}
use shyft.Utc.{contains_period}
use shyft.Calendar.Steps.{diff_units}
use shyft.Series.{PointFx, instant_value, average_value}
use shyft.TimeAxis.Fixed.{FixedDt}
use shyft.TimeAxis.Calendar.{CalendarDt}
use shyft.TimeAxis.Generic
use shyft.TimeAxis.Generic.{GenericDt, GenericType, fixed, calendar, point}
use shyft.Database.Read.{read_time_axis, write_ts}
use shyft.Database.Merge.{do_merge}
use shyft.Database.{TsDbHeader, TsDbFile, GenericTs, Regions}
use shyft.Calendar.Zone.{same_name}

-- Whether the old axis and that of the series can be merged: The check that the steps are not 0, which the remainder needs, is not in the source.
module _ {V : Type 0} (nan : V) (tzdef : Regions) where
  abbrev unaligned_fixed : FixedDt → FixedDt → Outcome Bool
  unaligned_fixed old_f new_f =
      if not (old_f.dt == new_f.dt)
      then ok true
      else if old_f.dt == 0
      then undefined
      else ok (not (eqb_ℤ (mod_ℤ (old_f.t -ℤ new_f.t) old_f.dt) (pos 0)))

  abbrev unaligned_calendar : CalendarDt → CalendarDt → Outcome Bool
  unaligned_calendar old_c new_c =
      if same_name new_c.cal.tz.tz_name old_c.cal.tz.tz_name
      then (diff_units new_c.cal old_c.t new_c.t (pos old_c.dt) >>= λ (n, remainder).
          ok (not (old_c.dt == new_c.dt) || not (eqb_ℤ remainder (pos 0))))
      else ok true

  unfoldable pub check_ta_alignment : TsDbHeader → GenericDt → GenericTs V → Outcome Bool
  check_ta_alignment old_header old_ta ats =
      if not (same_fx ats.fx_policy old_header.point_fx)
        || not (same_type ats.ta.gt old_header.ta_type)
      then throw runtime_error
      else ((elim old_header.ta_type [
        | fixed ↦ unaligned_fixed old_ta.f ats.ta.f
        | calendar ↦ unaligned_calendar old_ta.c ats.ta.c
        | point ↦ ok false
      ])
          >>= λ unaligned. if unaligned then throw runtime_error else ok true)
    where
      same_fx : PointFx → PointFx → Bool
      same_fx instant_value instant_value = true
      same_fx average_value average_value = true
      same_fx f g = false

      same_type : GenericType → GenericType → Bool
      same_type fixed fixed = true
      same_type calendar calendar = true
      same_type point point = true
      same_type s t = false

  unfoldable pub merge_ts : TsDbFile V → GenericTs V → Outcome (TsDbFile V)
  merge_ts file ats =
      read_time_axis tzdef file.header file.axis file.header.data_period >>= λ (old_ta, ignored).
      check_ta_alignment file.header old_ta ats >>= λ aligned. do_merge nan file old_ta ats

  -- The file that is there, if any, and whether it is to be replaced.
  unfoldable pub save : Bool → Option (TsDbFile V) → GenericTs V → Outcome (TsDbFile V)
  save overwrite none ts = write_ts ts
  save overwrite (some file) ts =
      if overwrite
      then write_ts ts
      else (Generic.total_period ts.ta >>= λ p.
          if contains_period p file.header.data_period then write_ts ts else merge_ts file ts)
