-- ===== src/Tests/Database.antt =====
-- The file database at concrete inputs: a series of four hours from 0 on, and others that are merged into it.
use shyft.Prelude.{ℕ, ◌<◌, ◌^◌, ◌≡◌, refl, arith, false, some, List, [], ◌∷◌}
use shyft.Prelude.Int.{pos, negsuc, mod_ℤ, quot_ℤ, div_ℤ, to_int, ◌*ℤ◌, ◌+ℤ◌, ◌-ℤ◌}
use shyft.Prelude.Outcome.{ok, throw, runtime_error, ◌>>=◌}
use shyft.Utc.{UtcTime, period, contains_period, valid}
use shyft.Series.{average_value}
use shyft.TimeAxis.Fixed
use shyft.TimeAxis.Point
use shyft.TimeAxis.Point.{lower_bound}
use shyft.TimeAxis.Generic
use shyft.TimeAxis.Generic.{GenericDt, of_fixed, of_calendar, of_point, calendar, point}
use shyft.Database.{
  TsDbFile, GenericTs, FileAxis, point_axis, file_axis, difference, read_values, write_values,
  fixed_steps, lookup_calendar, find_calendar, make_calendar_lookups, calendar_of_region,
  find_region,
}
use shyft.Calendar.Zone.{fixed_zone, same_name, utc_offset, dst_offset, has_dst}
use shyft.Calendar.Steps.{add, add_span}
use shyft.TimeAxis.Calendar
use shyft.Tests.Calendar.{oslo}
use shyft.Database.Read.{write_ts, read_ts, read_time_axis, read_overlapping}
use shyft.Database.Read.RoundTrip.{read_ts-write_ts, made_calendar}
use shyft.Database.Zones.{lookup_calendar-whole_hours}
use shyft.Database.Merge.{
  first_not_before, old_first, new_first, layout, merge_steps, merge_fixed, merge_point, point_file,
  do_merge,
}
use shyft.Database.Save.{check_ta_alignment, merge_ts, save}

-- the missing value
abbrev nan : ℕ
nan = 0

abbrev hours : UtcTime → ℕ → List ℕ → GenericTs ℕ
hours t n v = record {
  ta = of_fixed (record { t = t; dt = 3600; n = n });
  v = v;
  fx_policy = average_value;
}

abbrev old : GenericTs ℕ
old = hours (pos 7200) 4 (1 ∷ 2 ∷ 3 ∷ 4 ∷ [])

abbrev stored : GenericTs ℕ → TsDbFile ℕ
stored ts = record {
  header = record {
    point_fx = average_value;
    ta_type = ts.ta.gt;
    n = 4;
    data_period = period (pos 7200) (pos 21600);
  };
  axis = file_axis ts.ta;
  values = ts.v;
}

-- The values after the merge of a series inside of the old one, after it with a gap, and before it with a
-- gap; one that is not on the hour is refused.
merged :
    ((save nan [] false (some (stored old)) (hours (pos 10800) 2 (8 ∷ 9 ∷ [])) >>= λ f. ok f.values)
      ≡ ok (1 ∷ 8 ∷ 9 ∷ 4 ∷ []))
    × ((save nan [] false (some (stored old)) (hours (pos 25200) 1 (8 ∷ [])) >>= λ f. ok f.values)
        ≡ ok (1 ∷ 2 ∷ 3 ∷ 4 ∷ nan ∷ 8 ∷ []))
    × ((save nan [] false (some (stored old)) (hours (pos 0) 1 (8 ∷ [])) >>= λ f. ok f.values)
        ≡ ok (8 ∷ nan ∷ 1 ∷ 2 ∷ 3 ∷ 4 ∷ []))
    × ((save nan [] false (some (stored old)) (hours (pos 100) 1 (8 ∷ [])) >>= λ f. ok f.values)
        ≡ throw runtime_error)
unfolding save contains_period valid merge_ts check_ta_alignment do_merge merge_fixed merge_steps
    layout old_first new_first read_time_axis read_overlapping read_values write_values difference
    fixed_steps Generic.total_period Fixed.total_period Fixed.time_at Generic.size Fixed.size ◌-ℤ◌
    ◌+ℤ◌ mod_ℤ write_ts file_axis
merged = (refl, refl, refl, refl)

abbrev points : UtcTime → List UtcTime → List ℕ → GenericTs ℕ
points t_end t v = record {
  ta = of_point (record { t = t; t_end = t_end });
  v = v;
  fx_policy = average_value;
}

abbrev contents : TsDbFile ℕ → FileAxis × List ℕ
contents f = (f.axis, f.values)

-- The same with points: the end of the old points becomes a point where the gap starts.
merged_points :
    ((save nan [] false
          (some (
            stored (
              points
                (pos 21600)
                (pos 7200 ∷ pos 9000 ∷ pos 9001 ∷ pos 20000 ∷ [])
                (1 ∷ 2 ∷ 3 ∷ 4 ∷ []))))
          (points (pos 15000) (pos 8000 ∷ pos 9500 ∷ []) (8 ∷ 9 ∷ []))
        >>= λ f. ok (contents f))
      ≡ ok (
        point_axis (pos 21600) (pos 7200 ∷ pos 8000 ∷ pos 9500 ∷ pos 15000 ∷ pos 20000 ∷ []),
        1 ∷ 8 ∷ 9 ∷ 3 ∷ 4 ∷ [],
      ))
    × ((save nan [] false
            (some (
              stored (
                points
                  (pos 21600)
                  (pos 7200 ∷ pos 9000 ∷ pos 9001 ∷ pos 20000 ∷ [])
                  (1 ∷ 2 ∷ 3 ∷ 4 ∷ []))))
            (points (pos 40000) (pos 30000 ∷ []) (8 ∷ []))
          >>= λ f. ok (contents f))
        ≡ ok (
          point_axis
              (pos 40000)
              (pos 7200 ∷ pos 9000 ∷ pos 9001 ∷ pos 20000 ∷ pos 21600 ∷ pos 30000 ∷ []),
          1 ∷ 2 ∷ 3 ∷ 4 ∷ nan ∷ 8 ∷ [],
        ))
unfolding save contains_period valid merge_ts check_ta_alignment do_merge merge_point point_file
    first_not_before read_time_axis read_overlapping read_values difference lower_bound
    Generic.total_period Point.total_period Generic.size Point.size write_ts file_axis
merged_points = (refl, refl)

-- The zone of a whole hour is found by its name, and a region that `tzdef` has. The zone of 1800 s is
-- written as UTC+0, and another one is read back; that of 12 hours is not read at all.
zones :
    (lookup_calendar [] (fixed_zone (pos 3600)).tz.tz_name ≡ ok (fixed_zone (pos 3600)))
    × (lookup_calendar [] (fixed_zone (negsuc 39599)).tz.tz_name ≡ ok (fixed_zone (negsuc 39599)))
    × (lookup_calendar ((79 ∷ 115 ∷ 108 ∷ 111 ∷ [], oslo) ∷ []) oslo.tz.tz_name ≡ ok oslo)
    × (lookup_calendar [] (fixed_zone (pos 1800)).tz.tz_name ≡ ok (fixed_zone (pos 0)))
    × (lookup_calendar [] (fixed_zone (pos 43200)).tz.tz_name ≡ throw runtime_error)
unfolding lookup_calendar find_calendar make_calendar_lookups calendar_of_region find_region
    same_name ◌*ℤ◌ ◌+ℤ◌ quot_ℤ div_ℤ to_int
zones = (refl, refl, refl, refl, refl)

abbrev weeks : GenericTs ℕ
weeks = record {
  ta = of_calendar (record { cal = fixed_zone (pos 3600); t = pos 0; dt = 604800; n = 2 });
  v = 5 ∷ 6 ∷ [];
  fx_policy = average_value;
}

two_weeks :
    (Generic.total_period weeks.ta ≡ ok (period (pos 0) (pos 1209600)))
    × (2 ≡ Generic.size weeks.ta)
    × (Generic.size weeks.ta < 2 ^ 32)
unfolding Generic.total_period Calendar.total_period Calendar.time_at Generic.size Calendar.size add
    add_span utc_offset dst_offset has_dst ◌+ℤ◌ ◌-ℤ◌ ◌*ℤ◌
two_weeks = (refl, refl, omega arith)

read_ts-write_ts_example :
    (write_ts weeks >>= λ file. read_ts [] file (period (pos 0) (pos 1300000))) ≡ ok weeks
unfolding ◌*ℤ◌
read_ts-write_ts_example =
    read_ts-write_ts [] weeks (period (pos 0) (pos 1209600)) (period (pos 0) (pos 1300000))
      (made_calendar (record { cal = fixed_zone (pos 3600); t = pos 0; dt = 604800; n = 2 }))
      (λ same. lookup_calendar-whole_hours [] (pos 1) (omega arith) (omega arith)) two_weeks.0
      two_weeks.1 two_weeks.2 (omega arith) (omega arith) (omega arith) (omega arith)
