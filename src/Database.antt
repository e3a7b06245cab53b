-- ===== src/Database.antt =====
-- The file database of the time-series server, `ts_db` of core/dtss_db.h: how `save` merges a series
-- into the file that has the old one. A file is its header, its time-axis and its values; a position
-- in it is counted in values. A read of values that are not there throws; a write past the end,
-- which leaves a hole in the file, is taken for undefined. The type of values is
-- a parameter, with `nan` for the missing one.
pub mod Read
pub mod Merge
pub mod Save
pub mod Zones
use shyft.Prelude.{
  ℕ, zero, suc, Option, none, some, [], ◌∷◌, ◌+◌, ◌-◌, ◌/◌, ◌%◌, ◌^◌, Bool, ◌&&◌, not, List, ◌++◌,
}
use shyft.Prelude.Tests.{ltb, leb, ◌==◌, if◌then◌else◌}
use shyft.Prelude.Lists.{length, take, drop}
use shyft.Prelude.Int.{ℤ, pos, negsuc, pos_part, ◌+ℤ◌, ◌-ℤ◌, ◌*ℤ◌}
use shyft.Prelude.Outcome.{Outcome, ok, throw, undefined, runtime_error, ◌>>=◌}
use shyft.Utc.{UtcTime, UtcPeriod}
use shyft.Calendar.Zone.{TzInfo, TzName, utc_hours, region, same_name, same_text, fixed_zone}
use shyft.Calendar.Steps.{diff_units}
use shyft.Series.{PointFx}
use shyft.TimeAxis.Fixed.{FixedDt}
use shyft.TimeAxis.Calendar.{CalendarDt}
use shyft.TimeAxis.Point.{PointDt}
use shyft.TimeAxis.Generic.{
  GenericType, GenericDt, fixed, calendar, point, of_fixed, of_calendar, of_point,
}

pub record TsDbHeader : Type 0 where
  pub point_fx : PointFx
  pub ta_type : GenericType
  pub n : ℕ
  pub data_period : UtcPeriod

-- The time-axis as it is in the file: of a time zone it has the name.
pub data FileAxis : Type 0 where
  fixed_axis : UtcTime → ℕ → FileAxis
  calendar_axis : UtcTime → ℕ → TzName → FileAxis
  point_axis : UtcTime → List UtcTime → FileAxis

-- The two axes with a start have it at the same place.
abbrev pub write_start : UtcTime → FileAxis → FileAxis
write_start t0 (fixed_axis start delta_t) = fixed_axis t0 delta_t
write_start t0 (calendar_axis start delta_t tz) = calendar_axis t0 delta_t tz
write_start t0 (point_axis t_end t) = point_axis t0 t

pub record TsDbFile (V : Type 0) : Type 0 where
  pub header : TsDbHeader
  pub axis : FileAxis
  pub values : List V

pub record GenericTs (V : Type 0) : Type 0 where
  pub ta : GenericDt
  pub v : List V
  pub fx_policy : PointFx

-- A difference of `size_t`, which must not go below 0.
unfoldable pub difference : ℕ → ℕ → Outcome ℕ
difference a b = if leb b a then ok (a - b) else undefined

abbrev pub as_uint32 : ℕ → ℕ
as_uint32 x = x % 2 ^ 32

module _ {V : Type 0} where
  unfoldable pub read_values : ℕ → ℕ → List V → Outcome (List V)
  read_values at n values =
      if leb (at + n) (length values) then ok (take n (drop at values)) else throw runtime_error

  unfoldable pub write_values : ℕ → List V → List V → Outcome (List V)
  write_values at new values =
      if leb at (length values)
      then ok (take at values ++ (new ++ drop (at + length new) values))
      else undefined

-- How many steps of a fixed length it is from one time to a later one.
unfoldable pub fixed_steps : ℕ → UtcTime → UtcTime → Outcome ℕ
fixed_steps dt from to = if dt == 0 then undefined else ok (pos_part (to -ℤ from) / dt)

-- As above, with the steps of a calendar.
unfoldable pub calendar_steps : TzInfo → ℕ → UtcTime → UtcTime → Outcome ℕ
calendar_steps cal dt from to =
    diff_units cal from to (pos dt) >>= λ (n, remainder). ok (pos_part n)

unfoldable pub file_axis : GenericDt → FileAxis
file_axis a = elim a.gt [
  | fixed ↦ fixed_axis a.f.t a.f.dt
  | calendar ↦ calendar_axis a.c.t a.c.dt a.c.cal.tz.tz_name
  | point ↦ point_axis a.p.t_end a.p.t
]

-- The regions of `tzdef`, a table that the build has, each with the zone that its description makes.
abbrev pub Regions : Type 0
Regions = List (List ℕ × TzInfo)

-- The calendars of whole hours from `hour` on, as many as `n`.
unfoldable pub make_calendar_lookups : ℤ → ℕ → List TzInfo
make_calendar_lookups hour zero = []
make_calendar_lookups hour (suc n) =
    fixed_zone (hour *ℤ pos 3600) ∷ make_calendar_lookups (hour +ℤ pos 1) n

unfoldable pub find_calendar : TzName → List TzInfo → Option TzInfo
find_calendar name [] = none
find_calendar name (z ∷ calendars) =
    let rest = find_calendar name calendars in if same_name z.tz.tz_name name then some z else rest

-- The last region with the name, in a loop that goes on after it is found.
unfoldable pub find_region : List ℕ → Regions → Option TzInfo → Option TzInfo
find_region id [] found = found
find_region id ((r, z) ∷ tzdef) found =
    let here = find_region id tzdef (some z) in
    let rest = find_region id tzdef found in if same_text id r then here else rest

-- `calendar(region_id)`. No region has a name like UTC+12.
unfoldable pub calendar_of_region : Regions → TzName → Outcome TzInfo
calendar_of_region tzdef (utc_hours h) = throw runtime_error
calendar_of_region tzdef (region id) = elim (find_region id tzdef none) [
  | none ↦ throw runtime_error
  | some z ↦ ok z
]

unfoldable pub lookup_calendar : Regions → TzName → Outcome TzInfo
lookup_calendar tzdef name = elim (find_calendar name (make_calendar_lookups (negsuc 10) 23)) [
  | none ↦ calendar_of_region tzdef name
  | some z ↦ ok z
]
