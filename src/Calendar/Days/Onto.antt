-- ===== src/Calendar/Days/Onto.antt =====
-- Day numbers to dates and back.
use shyft.Prelude.{ℕ, ◌+◌, ◌-◌, ◌*◌, ◌/◌, ◌%◌, ◌≤◌, ◌<◌, ◌≡◌, ◌⊎◌, ◌∙◌, arith}
use shyft.Prelude.Int.{pos, ◌-ℤ◌, -ℤ_pos}
use shyft.Prelude.Outcome.{ok}
use shyft.Calendar.Days.{day_number, from_day_number}
use shyft.Calendar.Days.Leap.{days_in_month, is_leap}
use shyft.Calendar.Days.Decode.{IsDay, IsLong, year_day, days_before, from_day_number-parts}
use shyft.Calendar.Days.RoundTrip.{
  ymd, IsDate, march_year, march_month, day_number-ymd, make_ymd-ymd, to_u16-pos,
}

century_rest :
    (a : ℕ)
    → let c = (4 * a + 3) / 146097 in
      let f = a - 146097 * c / 4 in
      (a ≡ 36524 * c + c / 4 + f) × (f ≤ 36524) × ((f < 36524) ⊎ (c % 4 ≡ 3))
century_rest a = (omega arith, omega arith, ground arith)

year_rest :
    (f c : ℕ)
    → f ≤ 36524
    → (f < 36524) ⊎ (c % 4 ≡ 3)
    → let r = (4 * f + 3) / 1461 in
      let e = f - 1461 * r / 4 in
      (f ≡ 365 * r + r / 4 + e)
      × (r < 100)
      × (e ≤ 365)
      × ((e ≤ 364) ⊎ ((r % 4 ≡ 3) × ((r < 99) ⊎ (c % 4 ≡ 3))))
year_rest f c h k = (omega arith, omega (arith, h), omega arith, ground (arith, h, k))

month_rest :
    (e : ℕ)
    → e ≤ 365
    → let m = (5 * e + 2) / 153 in
      let d = e - (153 * m + 2) / 5 in
      (e ≡ year_day m d) × (m < 12) × (d < 31) × ((d < 30) ⊎ IsLong m)
month_rest e h = (omega arith, omega (arith, h), omega arith, ground (arith, h))

-- Every day number is a day of the calendar.
find-IsDay : (a : ℕ) → (c r m d : ℕ) × IsDay c r m d × (a ≡ days_before c r + year_day m d)
find-IsDay a =
    let c = (4 * a + 3) / 146097 in
    let f = a - 146097 * c / 4 in
    let r = (4 * f + 3) / 1461 in
    let e = f - 1461 * r / 4 in
    let m = (5 * e + 2) / 153 in
    let d = e - (153 * m + 2) / 5 in
    let (a_is, f_in, f_or) = century_rest a in
    let (f_is, r_in, e_in, e_or) = year_rest f c f_in f_or in
    let (e_is, m_in, d_in, d_or) = month_rest e e_in in
    (
      c,
      r,
      m,
      d,
      record {
        r_in = r_in;
        m_in = m_in;
        d_in = d_in;
        long = d_or;
        in_year = omega (arith, e_is, e_in);
        leap = ground (arith, e_is, e_or);
      },
      omega (arith, a_is, f_is, e_is),
    )

IsDay-IsDate :
    (c r m d : ℕ)
    → IsDay c r m d
    → 4800 ≤ 100 * c + r + m / 10
    → 100 * c + r + m / 10 ≤ 14799
    → IsDate (100 * c + r + m / 10 - 4800) (m + 3 - 12 * (m / 10)) (d + 1)
unfolding days_in_month is_leap
IsDay-IsDate c r m d D low high = record {
  year_in = omega (arith, high);
  month_in = omega (arith, D.m_in);
  day_in = (omega arith, ground (arith, low, D.leap, D.in_year, D.long, D.d_in, D.m_in, D.r_in));
}

march_of :
    (c r m : ℕ)
    → r < 100
    → m < 12
    → 4800 ≤ 100 * c + r + m / 10
    → let y = 100 * c + r + m / 10 - 4800 in
      let mo = m + 3 - 12 * (m / 10) in
      (march_year y mo / 100 ≡ c) × (march_year y mo % 100 ≡ r) × (march_month mo ≡ m)
march_of c r m h k l = (omega (arith, h, k, l), omega (arith, h, k, l), omega (arith, k))

-- Every day number from the first day of year 0 to the last of year 9999 is a date, and comes back
-- from it.
pub day_number-from_day_number :
    (n : ℕ)
    → 1721060 ≤ n
    → n ≤ 5373484
    → (y m d : ℕ) × IsDate y m d
      × (from_day_number n ≡ ok (ymd y m d))
      × (day_number (ymd y m d) ≡ n)
day_number-from_day_number n low high =
    let (c, r, m, d, D, e) = find-IsDay (n + 32044) in
    let y = 100 * c + r + m / 10 - 4800 in
    let mo = m + 3 - 12 * (m / 10) in
    let from : 4800 ≤ 100 * c + r + m / 10 = ground (arith, e, low, D.r_in, D.m_in, D.d_in) in
    let to : 100 * c + r + m / 10 ≤ 14799 = ground (arith, e, high, D.r_in, D.m_in, D.d_in) in
    let V = IsDay-IsDate c r m d D from to in
    let (c_is, r_is, m_is) = march_of c r m D.r_in D.m_in from in
    let day_is : d + 1 - 1 ≡ d = omega arith in
    let number = rw (c_is, r_is, m_is, day_is) at (day_number-ymd y mo (d + 1) V) in
    let year_is : pos (100 * c + r + m / 10) -ℤ pos 4800 ≡ pos y =
      -ℤ_pos (100 * c + r + m / 10) 4800 from in
    (
      y,
      mo,
      d + 1,
      V,
      from_day_number-parts n c r m d D e (omega (arith, high))
          ∙ rw (year_is, to_u16-pos y (omega (arith, V.year_in))) (make_ymd-ymd y mo (d + 1) V),
      omega (arith, number, e),
    )
