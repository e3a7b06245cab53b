-- ===== src/Tests/Calendar.antt =====
-- The calendar at concrete inputs: in a zone of a fixed offset and in one with the summer time of
-- 2024.
use shyft.Prelude.{ℕ, ◌+◌, ◌/◌, ◌%◌, ◌≡◌, refl, arith, false, [], ◌∷◌}
use shyft.Prelude.Int.{pos, negsuc, div_ℤ, mod_ℤ, quot_ℤ, to_int, ◌+ℤ◌, ◌-ℤ◌, ◌*ℤ◌}
use shyft.Prelude.Outcome.{ok, undefined, ◌>>=◌}
use shyft.Utc.{UtcTime, period}
use shyft.Calendar.Days.{
  day_number, from_day_number, make_ymd, to_u16, shifted_year, shifted_month, is_valid_ymd, is_null,
  is_valid_coordinates, ymd_eq, max_ymd,
}
use shyft.Calendar.Days.Leap.{days_in_month, is_leap}
use shyft.Calendar.Days.RoundTrip.{ymd, IsDate, from_day_number-day_number}
use shyft.Calendar.Days.Onto.{day_number-from_day_number}
use shyft.Calendar.Zone.{
  TzInfo, TzTable, region, day_length, fixed_zone, make_table, utc_offset, dst_offset, has_dst,
  in_summer, at, utc_year, julian_second, day_number_at,
}
use shyft.Calendar.Zone.Table.{IsTableOffset, dst_offset-before_table, dst_offset-from_table}
use shyft.Calendar.Units.{
  time, calendar_units, local_seconds, local_to_utc, fill_in_hms_from_t, day_of_week_idx,
  iso_week_day, day_of_year, quarter, mq_at, month, day_of_week,
}
use shyft.Calendar.Units.DayOfWeek.{day_of_week_idx-day_number}
use shyft.Calendar.Units.RoundTrip.{
  at_time, local_time, IsTimeOfDay, IsOffset, calendar_units-time, time-calendar_units,
}
use shyft.Calendar.Weeks.{
  week_time, time_from_week, calendar_week_units, week_one, trim_day_number_to_week, iso_year_week,
  is_null_ywd, is_valid_ywd, is_valid_week_coordinates, make_ywd, ywd_eq,
}
use shyft.Calendar.Steps.{
  add, add_span, add_months, carry_months, trim, trim_span, diff_units, diff_ordered,
  diff_below_day, diff_from_day, estimate_units, week_length, month_length, quarter_length,
}
use shyft.Calendar.Steps.Months.{IsMonthSum, add_months_lem}
use shyft.Calendar.Steps.Spans.{diff_units-add}
use shyft.Calendar.Steps.Fixed.{IsSpan, utc_offset-fixed_zone, diff_units-fixed_zone}
use shyft.Calendar.Steps.Trim.{CalendarUnit, trim-start, trim-fixed_zone}

unfoldable pub program : Unit {0}
unfolding day_number from_day_number make_ymd to_u16 shifted_year shifted_month is_valid_ymd is_null
    is_valid_coordinates ymd_eq utc_offset dst_offset has_dst in_summer at utc_year julian_second
    day_number_at time calendar_units local_seconds local_to_utc fill_in_hms_from_t day_of_week_idx
    iso_week_day day_of_year quarter mq_at month day_of_week week_time time_from_week
    calendar_week_units week_one trim_day_number_to_week iso_year_week is_null_ywd is_valid_ywd
    is_valid_week_coordinates make_ywd ywd_eq add add_span add_months carry_months trim trim_span
    diff_units diff_ordered diff_below_day diff_from_day estimate_units div_ℤ mod_ℤ quot_ℤ to_int
    ◌+ℤ◌ ◌-ℤ◌ ◌*ℤ◌ make_table days_in_month is_leap
program = tt

leap_day-IsDate : IsDate 2024 2 29
unfolding program
leap_day-IsDate = record {
  year_in = omega arith;
  month_in = (omega arith, omega arith);
  day_in = (omega arith, omega arith);
}

from_day_number-day_number_example :
    from_day_number (day_number (ymd 2024 2 29)) ≡ ok (ymd 2024 2 29)
from_day_number-day_number_example = from_day_number-day_number 2024 2 29 leap_day-IsDate

day_number-from_day_number_example :
    (y m d : ℕ) × IsDate y m d
    × (from_day_number 2460370 ≡ ok (ymd y m d))
    × (day_number (ymd y m d) ≡ 2460370)
day_number-from_day_number_example = day_number-from_day_number 2460370 (omega arith) (omega arith)

leap_day-weekday : day_of_week_idx (ymd 2024 2 29) ≡ (day_number (ymd 2024 2 29) + 1) % 7
leap_day-weekday = day_of_week_idx-day_number 2024 2 29 leap_day-IsDate (omega arith)

-- In January and February of year 0 the formula for the day of the week goes wrong: its year wraps.
year_zero : (day_of_week_idx (ymd 0 1 1) ≡ 3) × ((day_number (ymd 0 1 1) + 1) % 7 ≡ 6)
unfolding program
year_zero = (refl, refl)

-- One hour east of UTC.
abbrev pub east : TzInfo
east = fixed_zone (pos 3600)

east-IsOffset : (r : UtcTime) → IsOffset east r (pos 3600)
east-IsOffset r = record {
  at_local = utc_offset-fixed_zone (pos 3600) r;
  at_utc = utc_offset-fixed_zone (pos 3600) (r -ℤ pos 3600);
  small = omega arith;
}

half_past : IsTimeOfDay 12 30 15
half_past = record { hour_in = omega arith; minute_in = omega arith; second_in = omega arith }

not_last : ymd_eq (at_time 2024 2 29 12 30 15) max_ymd ≡ false
unfolding program
not_last = refl

time_of_leap_day : time east (at_time 2024 2 29 12 30 15) ≡ ok (pos 1709206215)
unfolding program
time_of_leap_day = refl

calendar_units-time_example :
    (time east (at_time 2024 2 29 12 30 15) >>= calendar_units east)
    ≡ ok (at_time 2024 2 29 12 30 15)
calendar_units-time_example =
    calendar_units-time east 2024 2 29 12 30 15 (pos 3600) leap_day-IsDate half_past
      (east-IsOffset (local_time 2024 2 29 12 30 15)) not_last

time-calendar_units_example :
    (calendar_units east (pos 1709206215) >>= time east) ≡ ok (pos 1709206215)
unfolding program
time-calendar_units_example =
    time-calendar_units east (pos 1709206215) (pos 3600)
      (east-IsOffset (pos 1709206215 +ℤ pos 3600)) (omega arith) (omega arith)

-- Sunday, the third of January 2021, is in the last week of 2020.
week_of_sunday :
    calendar_week_units (fixed_zone (pos 0)) (pos 1609668000)
    ≡ ok (record {
      iso_year = pos 2020;
      iso_week = 53;
      week_day = 7;
      hour = 10;
      minute = 0;
      second = 0;
    })
unfolding program
week_of_sunday = refl

time_of_sunday : time_from_week (fixed_zone (pos 0)) (pos 2020) 53 7 10 0 0 ≡ ok (pos 1609668000)
unfolding program
time_of_sunday = refl

start_of_quarter : trim east (pos 1709206215) (pos quarter_length) ≡ ok (pos 1704063600)
unfolding program
start_of_quarter = refl

trim-start_example :
    trim east (local_time 2024 2 29 12 30 15 -ℤ pos 3600) (pos month_length)
    ≡ ok (local_time 2024 2 1 0 0 0 -ℤ pos 3600)
trim-start_example =
    trim-start east 2024 2 29 12 30 15 (pos 3600) (pos 3600) leap_day-IsDate half_past
      (east-IsOffset (local_time 2024 2 29 12 30 15)) CalendarUnit.month
      (east-IsOffset (local_time 2024 2 1 0 0 0))

pub weeks : IsSpan week_length
weeks = record {
  positive = omega arith;
  no_month = λ same. omega (arith, same);
  no_quarter = λ same. omega (arith, same);
  no_year = λ same. omega (arith, same);
}

trimmed_week :
    trim east (pos 864000) (pos week_length)
    ≡ ok (pos 864000 -ℤ pos ((62899200000 + 1126800) % 604800))
unfolding program
trimmed_week =
    trim-fixed_zone (pos 3600) (pos 864000) week_length (62899200000 + 1126800) weeks
      (λ same. omega (arith, same)) refl refl

weeks_between :
    diff_units east (pos 3600) (pos 3600 +ℤ pos 1500000) (pos week_length)
    ≡ ok (pos (1500000 / week_length), pos (1500000 % week_length))
unfolding program
weeks_between = diff_units-fixed_zone (pos 3600) (pos 3600) 1500000 week_length weeks refl refl

months_added :
    IsMonthSum
      (ymd 2024 2 29)
      (negsuc 2)
      (add_months (ymd 2024 2 29) (negsuc 2) (negsuc 2 *ℤ pos month_length))
months_added =
    add_months_lem (ymd 2024 2 29) (negsuc 2) (omega arith) (omega arith) (omega arith)
      (omega arith)

-- The zone with the summer time of 2024 only.
abbrev table : TzTable
table = record {
  start_year = pos 2024;
  tz_name = region (79 ∷ 115 ∷ 108 ∷ 111 ∷ []);
  dst = period (pos 1711846800) (pos 1729990800) ∷ [];
  dt = pos 3600 ∷ [];
}

table_from_zone :
    make_table
      (λ _. pos 1711846800)
      (λ _. pos 1729990800)
      (λ _. pos 3600)
      (region (79 ∷ 115 ∷ 108 ∷ 111 ∷ []))
      (pos 2024)
      1
    ≡ table
unfolding program
table_from_zone = refl

abbrev pub oslo : TzInfo
oslo = record { base_tz = pos 3600; tz = table }

-- The day on which summer time starts has 23 hours.
short_day : diff_units oslo (pos 1711839600) (pos 1711922400) (pos day_length) ≡ ok (pos 1, pos 0)
unfolding program
short_day = refl

diff_units-add_example :
    add oslo (pos 1711839600) (pos day_length) (pos 1) ≡ ok (pos 1711922400 -ℤ pos 0)
diff_units-add_example =
    diff_units-add oslo (pos 1711839600) (pos 1711922400) (pos day_length) (pos 1) (pos 0) refl refl
      (omega arith) (omega arith) short_day

dst_offset-before_table_example : dst_offset table (pos 0) ≡ undefined
unfolding program
dst_offset-before_table_example =
    dst_offset-before_table table (pos 0) (pos 1970) (omega arith) refl (omega arith)

year_of_short_day : utc_year (pos 1711922400) ≡ ok (pos 2024)
unfolding program
year_of_short_day = refl

offset_of_short_day :
    IsTableOffset table (pos 1711922400) (pos 2024) (omega arith) year_of_short_day
offset_of_short_day =
    dst_offset-from_table table (pos 1711922400) (pos 2024) (omega arith) year_of_short_day refl
      (omega arith)

-- From 1600 to 1875 there are 3300 months: the estimate is more than one month too high.
too_many_months :
    diff_units (fixed_zone (pos 0)) (negsuc 11676095999) (negsuc 2997907199) (pos month_length)
    ≡ ok (pos 3301, negsuc 2678399)
unfolding program
too_many_months = refl
