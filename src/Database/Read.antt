-- ===== src/Database/Read.antt =====
-- How `ts_db` of core/dtss_db.h writes a series to a file of its own, and reads a period of it back.

pub mod RoundTrip
use shyft.Prelude.{ℕ, ◌+◌, ◌-◌, ◌*◌, Bool, ◌&&◌, ◌||◌, Option, none, some, List, []}
use shyft.Prelude.Tests.{ltb, leb, ◌==◌, if◌then◌else◌}
use shyft.Prelude.Lists.{get_elem?, take, drop, length}
use shyft.Prelude.Int.{pos, pos_part, ◌+ℤ◌, ltb_ℤ, leb_ℤ, eqb_ℤ}
use shyft.Prelude.Outcome.{Outcome, ok, undefined, ◌>>=◌}
use shyft.Utc.{UtcTime, UtcPeriod, no_utctime, min_utctime, max_utctime}
use shyft.Calendar.Steps.{add}
use shyft.TimeAxis.Fixed.{FixedDt}
use shyft.TimeAxis.Calendar
use shyft.TimeAxis.Calendar.{CalendarDt}
use shyft.TimeAxis.Point
use shyft.TimeAxis.Point.{PointDt, lower_bound}
use shyft.TimeAxis.Generic
use shyft.TimeAxis.Generic.{GenericDt, of_fixed, of_calendar, of_point}
use shyft.Database.{
  TsDbHeader, FileAxis, fixed_axis, calendar_axis, point_axis, TsDbFile, GenericTs, difference,
  as_uint32, read_values, fixed_steps, calendar_steps, file_axis, Regions, lookup_calendar,
}

module _ {V : Type 0} where
  unfoldable pub write_ts : GenericTs V → Outcome (TsDbFile V)
  write_ts ts = Generic.total_period ts.ta >>= λ p. ok (record {
    header = record {
      point_fx = ts.fx_policy;
      ta_type = ts.ta.gt;
      n = as_uint32 (Generic.size ts.ta);
      data_period = p;
    };
    axis = file_axis ts.ta;
    values = ts.v;
  })

abbrev or_else : UtcTime → UtcTime → UtcTime
or_else default t = if eqb_ℤ t no_utctime then default else t

-- An axis of the type of the file, without periods.
abbrev no_axis : FileAxis → GenericDt
no_axis (fixed_axis t0 dt) = of_fixed (record { t = no_utctime; dt = 0; n = 0 })
no_axis (calendar_axis t0 dt tz) = of_calendar Calendar.null_range
no_axis (point_axis f_time t) = of_point Point.null_range

-- The number of steps from one time to another one after it, and none to one that is not.
abbrev steps_inside : (UtcTime → UtcTime → Outcome ℕ) → UtcTime → UtcTime → Outcome ℕ
steps_inside steps from to = if ltb_ℤ from to then steps from to else ok 0

abbrev part_n : ℕ → ℕ → ℕ → Outcome ℕ
part_n n skip_n drop_n = difference n skip_n >>= λ rest. difference rest drop_n

abbrev index_at_or_before : UtcTime → List UtcTime → ℕ
index_at_or_before tx t = lower_bound tx t - 1

abbrev point_or : UtcTime → Option UtcTime → UtcTime
point_or f_time none = f_time
point_or f_time (some next) = next

-- The part of the points from `t_start` to `t_end`, with the number of points that are skipped.
unfoldable pub part_of_points :
    UtcPeriod → UtcTime → UtcTime → UtcTime → List UtcTime → GenericDt × ℕ
part_of_points span t_start t_end f_time t =
    let b = if ltb_ℤ span.start t_start then index_at_or_before t_start t else 0 in
    let e = if ltb_ℤ t_end span.end then b + lower_bound t_end (drop b t) else length t in
    let stop = point_or f_time (get_elem? t e) in
    (of_point (record { t = take (e - b) (drop b t); t_end = stop }), b)

module _ (tzdef : Regions) (h : TsDbHeader) (t_start t_end : UtcTime) where
  -- whether the period is fully around the data, or exactly that
  abbrev around : Bool
  around = leb_ℤ t_start h.data_period.start && leb_ℤ h.data_period.end t_end

  unfoldable pub read_overlapping : FileAxis → Outcome (GenericDt × ℕ)
  read_overlapping (fixed_axis t0 dt) =
      if around
      then ok (of_fixed (record { t = t0; dt = dt; n = h.n }), 0)
      else (steps_inside (fixed_steps dt) h.data_period.start t_start >>= λ skip_n.
          steps_inside (fixed_steps dt) t_end h.data_period.end >>= λ drop_n.
          part_n h.n skip_n drop_n >>= λ n.
          ok (of_fixed (record { t = t0 +ℤ pos (dt * skip_n); dt = dt; n = n }), skip_n))
  read_overlapping (calendar_axis t0 dt tz) = lookup_calendar tzdef tz >>= λ cal.
      if around
      then ok (of_calendar (record { cal = cal; t = t0; dt = dt; n = h.n }), 0)
      else (steps_inside (calendar_steps cal dt) h.data_period.start t_start >>= λ skip_n.
          steps_inside (calendar_steps cal dt) t_end h.data_period.end >>= λ drop_n.
          part_n h.n skip_n drop_n >>= λ n. add cal t0 (pos dt) (pos skip_n) >>= λ t.
          ok (of_calendar (record { cal = cal; t = t; dt = dt; n = n }), skip_n))
  read_overlapping (point_axis f_time t) = read_values 0 h.n t >>= λ tmp.
      if around
      then ok (of_point (record { t = tmp; t_end = f_time }), 0)
      else ok (part_of_points h.data_period t_start t_end f_time tmp)

-- The part of the axis that the period overlaps, and how many values are skipped.
unfoldable pub read_time_axis :
    Regions → TsDbHeader → FileAxis → UtcPeriod → Outcome (GenericDt × ℕ)
read_time_axis tzdef h axis p =
    let t_start = or_else min_utctime p.start in
    let t_end = or_else max_utctime p.end in
    if leb_ℤ h.data_period.end t_start || leb_ℤ t_end h.data_period.start
    then ok (no_axis axis, 0)
    else read_overlapping tzdef h t_start t_end axis

unfoldable pub read_ts : {V : Type 0} → Regions → TsDbFile V → UtcPeriod → Outcome (GenericTs V)
read_ts tzdef file p = read_time_axis tzdef file.header file.axis p >>= λ (ta, skip_n).
    read_values skip_n (Generic.size ta) file.values >>= λ v.
    ok (record { ta = ta; v = v; fx_policy = file.header.point_fx })
