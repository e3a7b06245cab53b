-- ===== src/Calendar/Weeks.antt =====
-- ISO weeks, in core/utctime_utilities.h and core/utctime_utilities.cpp: `YWdhms`, the iso week of
-- a time and the time of an iso week.
use shyft.Prelude.{ℕ, ◌+◌, ◌-◌, ◌*◌, ◌/◌, Bool, ◌&&◌, ◌||◌, not}
use shyft.Prelude.Tests.{ltb, leb, ◌==◌, if◌then◌else◌}
use shyft.Prelude.Int.{ℤ, pos, ◌+ℤ◌, ltb_ℤ, eqb_ℤ}
use shyft.Prelude.Outcome.{Outcome, ok, throw, runtime_error, ◌>>=◌}
use shyft.Utc.{UtcTime, no_utctime, max_utctime, min_utctime}
use shyft.Calendar.Days.{YmdHms, year_max, year_min, make_ymd, day_number, from_day_number}
use shyft.Calendar.Zone.{TzInfo, utc_offset, day_number_at}
use shyft.Calendar.Units.{local_seconds, local_to_utc, fill_in_hms_from_t, iso_week_day}

pub record YwdHms : Type 0 where
  pub iso_year : ℤ
  pub iso_week : ℕ
  pub week_day : ℕ
  pub hour : ℕ
  pub minute : ℕ
  pub second : ℕ

abbrev pub null_ywd : YwdHms
null_ywd = record { iso_year = pos 0; iso_week = 0; week_day = 0; hour = 0; minute = 0; second = 0 }

abbrev pub max_ywd : YwdHms
max_ywd = record {
  iso_year = year_max;
  iso_week = 52;
  week_day = 6;
  hour = 23;
  minute = 59;
  second = 59;
}

abbrev pub min_ywd : YwdHms
min_ywd = record {
  iso_year = year_min;
  iso_week = 1;
  week_day = 1;
  hour = 0;
  minute = 0;
  second = 0;
}

unfoldable pub ywd_eq : YwdHms → YwdHms → Bool
ywd_eq a b =
    eqb_ℤ a.iso_year b.iso_year
    && a.iso_week == b.iso_week
    && a.week_day == b.week_day
    && a.hour == b.hour
    && a.minute == b.minute
    && a.second == b.second

unfoldable pub is_null_ywd : YwdHms → Bool
is_null_ywd c =
    eqb_ℤ c.iso_year (pos 0)
    && c.iso_week == 0
    && c.week_day == 0
    && c.hour == 0
    && c.minute == 0
    && c.second == 0

unfoldable pub is_valid_week_coordinates : YwdHms → Bool
is_valid_week_coordinates c = not (
    ltb_ℤ c.iso_year year_min
    || ltb_ℤ year_max c.iso_year
    || ltb c.iso_week 1
    || ltb 53 c.iso_week
    || ltb c.week_day 1
    || ltb 7 c.week_day
    || ltb 23 c.hour
    || ltb 59 c.minute
    || ltb 59 c.second)

unfoldable pub is_valid_ywd : YwdHms → Bool
is_valid_ywd c = is_null_ywd c || is_valid_week_coordinates c

-- The constructor, with its check.
unfoldable pub make_ywd : ℤ → ℕ → ℕ → ℕ → ℕ → ℕ → Outcome YwdHms
make_ywd y w d h mi s =
    let c : YwdHms = record {
      iso_year = y;
      iso_week = w;
      week_day = d;
      hour = h;
      minute = mi;
      second = s;
    } in
    if is_valid_ywd c then ok c else throw runtime_error

unfoldable pub trim_day_number_to_week : ℕ → ℕ
trim_day_number_to_week jdn = 7 * (jdn / 7)

-- The monday of week 1 of the year of `c`, from the first of January of that year.
unfoldable pub week_one : YmdHms → Outcome ℕ
week_one c =
    let w1 = trim_day_number_to_week (day_number (record c { month = 1; day = 1 })) in
    from_day_number w1 >>= λ cy. ok (if cy.month == 12 && ltb cy.day 29 then w1 + 7 else w1)

-- `time(YWdhms)`
unfoldable pub week_time : TzInfo → YwdHms → Outcome UtcTime
week_time z c =
    if is_null_ywd c
    then ok no_utctime
    else if ywd_eq c max_ywd
    then ok max_utctime
    else if ywd_eq c min_ywd
    then ok min_utctime
    else if not (is_valid_week_coordinates c)
    then throw runtime_error
    else (make_ymd c.iso_year 1 14 0 0 0 >>= λ middle.
        day_number_at (local_seconds (day_number middle) 0 0 0) >>= λ jdn.
        from_day_number jdn >>= λ cw. week_one cw >>= λ w1.
        let day = w1 + 7 * (c.iso_week - 1) + (c.week_day - 1) in
        local_to_utc z (local_seconds day c.hour c.minute c.second))

unfoldable pub time_from_week : TzInfo → ℤ → ℕ → ℕ → ℕ → ℕ → ℕ → Outcome UtcTime
time_from_week z y w d h m s = make_ywd y w d h m s >>= week_time z

-- The iso year and week of a day number: `c` is the monday of its week.
unfoldable pub iso_year_week : ℕ → YmdHms → Outcome (ℤ × ℕ)
iso_year_week jdn c =
    if c.month == 12 && leb 29 c.day
    then ok (c.year +ℤ pos 1, 1)
    else if c.month == 1 && leb c.day 4
    then ok (c.year, 1)
    else (week_one c >>= λ w1. ok (c.year, 1 + (jdn - w1) / 7))

unfoldable pub calendar_week_units : TzInfo → UtcTime → Outcome YwdHms
calendar_week_units z t =
    if eqb_ℤ t no_utctime
    then ok null_ywd
    else if eqb_ℤ t max_utctime
    then ok max_ywd
    else if eqb_ℤ t min_utctime
    then ok min_ywd
    else (utc_offset z t >>= λ offset.
        let local = t +ℤ offset in
        day_number_at local >>= λ jdn. from_day_number jdn >>= λ c.
        from_day_number (trim_day_number_to_week jdn) >>= λ monday.
        iso_year_week jdn monday >>= λ week. fill_in_hms_from_t local >>= λ h. ok (record {
          iso_year = week.0;
          iso_week = week.1;
          week_day = iso_week_day c;
          hour = h.hour;
          minute = h.minute;
          second = h.second;
        }))
