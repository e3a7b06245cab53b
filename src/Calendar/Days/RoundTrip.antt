-- ===== src/Calendar/Days/RoundTrip.antt =====
-- Dates to day numbers and back.
use shyft.Prelude.{ℕ, ◌+◌, ◌-◌, ◌*◌, ◌/◌, ◌%◌, ◌≤◌, ◌<◌, ◌≡◌, ap, ◌∙◌, ◌^◌, arith}
use shyft.Prelude.Int.{pos, ◌-ℤ◌, +ℤ_pos, -ℤ_pos}
use shyft.Prelude.Outcome.{ok}
use shyft.Calendar.Days.{
  YmdHms, day_number, shifted_year, shifted_month, from_day_number, make_ymd, to_u16, is_valid_ymd,
  is_null, is_valid_coordinates,
}
use shyft.Calendar.Days.Leap.{days_in_month, is_leap}
use shyft.Calendar.Days.Decode.{IsDay, year_day, days_before, from_day_number-parts}

abbrev pub ymd : ℕ → ℕ → ℕ → YmdHms
ymd y m d = record { year = pos y; month = m; day = d; hour = 0; minute = 0; second = 0 }

-- A date of the Gregorian calendar, in the years that the source allows from year 0 on.
pub record IsDate (y m d : ℕ) : Type 0 where
  pub year_in : y ≤ 9999
  pub month_in : (1 ≤ m) × (m ≤ 12)
  pub day_in : (1 ≤ d) × (d ≤ days_in_month y m)

abbrev pub years_before : ℕ → ℕ
years_before m = (14 - m) / 12

abbrev pub march_year : ℕ → ℕ → ℕ
march_year y m = y + 4800 - years_before m

abbrev pub march_month : ℕ → ℕ
march_month m = m + 12 * years_before m - 3

pub IsDate-IsDay :
    (y m d : ℕ)
    → IsDate y m d
    → IsDay (march_year y m / 100) (march_year y m % 100) (march_month m) (d - 1)
unfolding days_in_month is_leap
IsDate-IsDay y m d D = record {
  r_in = omega arith;
  m_in = omega (arith, D.month_in);
  d_in = ground (arith, D.day_in);
  long = ground (arith, D.month_in, D.day_in);
  in_year = ground (arith, D.month_in, D.day_in);
  leap = ground (arith, D.month_in, D.day_in);
}

pub to_u16-pos : (n : ℕ) → n < 65536 → to_u16 (pos n) ≡ n
unfolding to_u16
to_u16-pos n h = omega (arith, h)

shifted_year-ymd : (y m d : ℕ) → IsDate y m d → shifted_year (ymd y m d) ≡ march_year y m
unfolding shifted_year
shifted_year-ymd y m d D =
    rw (+ℤ_pos y 4800, -ℤ_pos (y + 4800) (years_before m) (omega (arith, D.month_in)))
      (to_u16-pos (march_year y m) (omega (arith, D.year_in)))

day_number-sum :
    (y m d : ℕ)
    → 4799 ≤ y
    → y ≤ 14799
    → m ≤ 11
    → 1 ≤ d
    → d ≤ 31
    → (d + (153 * m + 2) / 5 + 365 * y + y / 4 - y / 100 + y / 400 + (2 ^ 64 - 32045)) % 2 ^ 64
        + 32044
      ≡ days_before (y / 100) (y % 100) + year_day m (d - 1)
day_number-sum y m d h k l p q = ground arith

pub day_number-ymd :
    (y m d : ℕ)
    → IsDate y m d
    → day_number (ymd y m d) + 32044
      ≡ days_before (march_year y m / 100) (march_year y m % 100) + year_day (march_month m) (d - 1)
unfolding day_number shifted_month days_in_month
day_number-ymd y m d D = rw (shifted_year-ymd y m d D) (
    day_number-sum (march_year y m) (march_month m) d (omega (arith, D.month_in))
      (omega (arith, D.year_in)) (omega (arith, D.month_in)) (omega (arith, D.day_in))
      (ground (arith, D.day_in)))

pub make_ymd-ymd : (y m d : ℕ) → IsDate y m d → make_ymd (pos y) m d 0 0 0 ≡ ok (ymd y m d)
unfolding make_ymd is_valid_ymd is_null is_valid_coordinates days_in_month
make_ymd-ymd y m d D = ground (arith, D.year_in, D.month_in, D.day_in)

-- A date of the years 0 to 9999 comes back from its day number.
pub from_day_number-day_number :
    (y m d : ℕ) → IsDate y m d → from_day_number (day_number (ymd y m d)) ≡ ok (ymd y m d)
from_day_number-day_number y m d D =
    let e = day_number-ymd y m d D in
    let back : 100 * (march_year y m / 100) + march_year y m % 100 + march_month m / 10 ≡ y + 4800 =
      omega (arith, D.month_in) in
    let month_is : march_month m + 3 - 12 * (march_month m / 10) ≡ m = omega (arith, D.month_in) in
    let day_is : d - 1 + 1 ≡ d = omega (arith, D.day_in) in
    let year_is : pos (y + 4800) -ℤ pos 4800 ≡ pos y =
      -ℤ_pos (y + 4800) 4800 (omega arith) ∙ ap pos (omega arith) in
    from_day_number-parts (day_number (ymd y m d)) (march_year y m / 100) (march_year y m % 100)
      (march_month m) (d - 1) (IsDate-IsDay y m d D) e
      (omega (arith, e, D.year_in, (IsDate-IsDay y m d D).in_year))
    ∙ rw (back, year_is, to_u16-pos y (omega (arith, D.year_in)), month_is, day_is)
        (make_ymd-ymd y m d D)
