-- ===== src/Tests/CalendarAxes.antt =====
-- Axes of calendar steps at concrete inputs.
use shyft.Prelude.{◌≡◌, refl, arith, none, some, [], ◌∷◌}
use shyft.Prelude.Int.{pos}
use shyft.Prelude.Outcome.{ok}
use shyft.Utc.{contains, period}
use shyft.Calendar.Steps.{week_length, month_length}
use shyft.TimeAxis.Fixed
use shyft.TimeAxis.Point
use shyft.TimeAxis.Generic
use shyft.TimeAxis.Generic.{of_fixed, of_calendar, of_point}
use shyft.TimeAxis.Calendar.{
  CalendarDt, total_period, time_at, time, period_at, index_of, open_range_index_of,
}
use shyft.TimeAxis.Calendar.Fixed.{calendar_axis, fixed_axis, calendar_axis-fixed_axis}
use shyft.Tests.Calendar.{program, weeks, east}

-- The months of 2024, one hour east of UTC.
abbrev months : CalendarDt
months = record { cal = east; t = pos 1704063600; dt = month_length; n = 12 }

leap_february :
    (time months 2 ≡ ok (pos 1709247600))
    × (index_of months (pos 1709206215) ≡ ok (some 1))
    × (open_range_index_of months (pos 1800000000) ≡ ok (some 11))
unfolding program time index_of open_range_index_of total_period time_at contains
leap_february = (refl, refl, refl)

calendar_axis-fixed_axis_example :
    (total_period (calendar_axis (pos 3600) (pos 0) week_length 4 weeks)
      ≡ ok (Fixed.total_period (fixed_axis (pos 3600) (pos 0) week_length 4 weeks)))
    × (time (calendar_axis (pos 3600) (pos 0) week_length 4 weeks) 2
        ≡ Fixed.time (fixed_axis (pos 3600) (pos 0) week_length 4 weeks) 2)
    × (period_at (calendar_axis (pos 3600) (pos 0) week_length 4 weeks) 2
        ≡ Fixed.period_at (fixed_axis (pos 3600) (pos 0) week_length 4 weeks) 2)
    × (index_of (calendar_axis (pos 3600) (pos 0) week_length 4 weeks) (pos 1000000)
        ≡ ok (Fixed.index_of (fixed_axis (pos 3600) (pos 0) week_length 4 weeks) (pos 1000000)))
calendar_axis-fixed_axis_example =
    calendar_axis-fixed_axis (pos 3600) (pos 0) week_length 4 weeks 2 (pos 1000000) (omega arith)

generic_axes :
    (Generic.time (of_calendar months) 2 ≡ ok (pos 1709247600))
    × (Generic.index_of (of_calendar months) (pos 1709206215) none ≡ ok (some 1))
    × (Generic.time (of_fixed (record { t = pos 5; dt = 10; n = 3 })) 2 ≡ ok (pos 25))
    × (Generic.size (of_point (record { t = pos 5 ∷ pos 9 ∷ []; t_end = pos 11 })) ≡ 2)
    × (Generic.period_at (of_point (record { t = pos 5 ∷ pos 9 ∷ []; t_end = pos 11 })) 1
        ≡ ok (period (pos 9) (pos 11)))
unfolding program Generic.time Generic.index_of Generic.size Generic.period_at time time_at index_of
    total_period contains Fixed.time Fixed.time_at Point.size Point.period_at
generic_axes = (refl, refl, refl, refl, refl)
