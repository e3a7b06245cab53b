-- ===== src/Calendar/Units/DayOfWeek.antt =====
-- The day of the week.
use shyft.Prelude.{ℕ, ◌+◌, ◌-◌, ◌*◌, ◌/◌, ◌%◌, ◌≤◌, ◌≡◌, arith}
use shyft.Prelude.Int.{pos, ◌-ℤ◌, -ℤ_pos}
use shyft.Calendar.Days.{day_number}
use shyft.Calendar.Days.Decode.{year_day, days_before}
use shyft.Calendar.Days.RoundTrip.{
  ymd, IsDate, day_number-ymd, march_year, march_month, years_before, to_u16-pos,
}
use shyft.Calendar.Units.{day_of_week_idx}

-- The months of the formula, counted from March, against the days of the year from March on.
month_weeks : (m : ℕ) → m ≤ 11 → (153 * m + 2) / 5 + 2 ≡ 31 * (m + 1) / 12 + 28 * m
month_weeks m h = omega (arith, h)

year_weeks :
    (y : ℕ)
    → days_before ((y + 4800) / 100) ((y + 4800) % 100) + y / 100
      ≡ y + y / 4 + y / 400 + 7 * (52 * y) + 1753164
year_weeks y = omega arith

weeks_sum :
    (y m d n : ℕ)
    → m ≤ 11
    → 1 ≤ d
    → n + 32044 ≡ days_before ((y + 4800) / 100) ((y + 4800) % 100) + year_day m (d - 1)
    → (d + y + y / 4 - y / 100 + y / 400 + 31 * (m + 1) / 12) % 7 ≡ (n + 1) % 7
weeks_sum y m d n h k e = omega (arith, month_weeks m h, year_weeks y, h, k, e)

year_of_march : (y m d : ℕ) → IsDate y m d → 1 ≤ y → march_year y m ≡ y - years_before m + 4800
year_of_march y m d D h = omega (arith, D.month_in, h)

-- The formula for the day of the week of a date, sunday 0, is one more than its day number, modulo
-- 7, from year 1 to year 9999.
pub day_of_week_idx-day_number :
    (y m d : ℕ)
    → IsDate y m d
    → 1 ≤ y
    → day_of_week_idx (ymd y m d) ≡ (day_number (ymd y m d) + 1) % 7
unfolding day_of_week_idx
day_of_week_idx-day_number y m d D h =
    let month_is : m + 12 * ((14 - m) / 12) - 2 ≡ march_month m + 1 = omega (arith, D.month_in) in
    let year_is : pos y -ℤ pos ((14 - m) / 12) ≡ pos (y - years_before m) =
      -ℤ_pos y (years_before m) (omega (arith, D.month_in, h)) in
    let number = rw (year_of_march y m d D h) at (day_number-ymd y m d D) in
    rw (month_is, year_is, to_u16-pos (y - years_before m) (omega (arith, D.year_in)))
      (weeks_sum (y - years_before m) (march_month m) d (day_number (ymd y m d))
        (omega (arith, D.month_in)) (omega (arith, D.day_in)) number)
