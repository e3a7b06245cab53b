-- ===== src/Calendar/Units.antt =====
-- Coordinates of a time and the time of coordinates, in core/utctime_utilities.cpp. The calendar
-- is its time zone. The year is an `int` and keeps its value in every sum of this file and its
-- siblings while the count of units is below 2 ^ 31 - 9999.
pub mod DayOfWeek
pub mod RoundTrip
use shyft.Prelude.{ℕ, ◌+◌, ◌-◌, ◌*◌, ◌/◌, ◌%◌, Bool, true, false, ◌&&◌, ◌||◌, not, List, [], ◌∷◌}
use shyft.Prelude.Tests.{◌==◌, if◌then◌else◌}
use shyft.Prelude.Int.{ℤ, pos, negsuc, ◌+ℤ◌, ◌-ℤ◌, ◌*ℤ◌, eqb_ℤ, to_int}
use shyft.Prelude.Outcome.{Outcome, ok, throw, undefined, runtime_error, ◌>>=◌}
use shyft.Utc.{UtcTime, no_utctime, max_utctime, min_utctime}
use shyft.Calendar.Days.{
  YmdHms, null_ymd, max_ymd, min_ymd, ymd_eq, is_null, is_valid_coordinates, make_ymd, to_u16,
  day_number, from_day_number,
}
use shyft.Calendar.Zone.{TzInfo, day_length, unix_day, utc_offset, julian_second, day_number_at, at}

abbrev pub seconds : ℕ → ℕ → ℕ → ℕ
seconds h m s = h * 3600 + m * 60 + s

-- The seconds since 1970 of a time of day, both in the local time.
unfoldable pub local_seconds : ℕ → ℕ → ℕ → ℕ → UtcTime
local_seconds day h m s =
    (to_int (pos day) -ℤ pos unix_day) *ℤ pos day_length +ℤ pos (seconds h m s)

-- From local time to UTC. The second lookup decides, in the hour when summer time starts or ends.
unfoldable pub local_to_utc : TzInfo → UtcTime → Outcome UtcTime
local_to_utc z r = utc_offset z r >>= λ diff_1. utc_offset z (r -ℤ diff_1) >>= λ diff_2.
    ok (if eqb_ℤ diff_1 diff_2 then r -ℤ diff_1 else r -ℤ diff_2)

-- `time(YMDhms)`
unfoldable pub time : TzInfo → YmdHms → Outcome UtcTime
time z c =
    if is_null c
    then ok no_utctime
    else if ymd_eq c max_ymd
    then ok max_utctime
    else if ymd_eq c min_ymd
    then ok min_utctime
    else if not (is_valid_coordinates c)
    then throw runtime_error
    else local_to_utc z (local_seconds (day_number c) c.hour c.minute c.second)

pub record TimeOfDay : Type 0 where
  pub hour : ℕ
  pub minute : ℕ
  pub second : ℕ

-- `fill_in_hms_from_t`, of which the callers take the three fields
unfoldable pub fill_in_hms_from_t : UtcTime → Outcome TimeOfDay
fill_in_hms_from_t t = julian_second t >>= λ tj.
    let dx = tj - day_length * (tj / day_length) in
    let hour = dx / 3600 in
    let rest = dx - hour * 3600 in
    ok (record { hour = hour; minute = rest / 60; second = rest % 60 })

unfoldable pub calendar_units : TzInfo → UtcTime → Outcome YmdHms
calendar_units z t =
    if eqb_ℤ t no_utctime
    then ok null_ymd
    else if eqb_ℤ t max_utctime
    then ok max_ymd
    else if eqb_ℤ t min_utctime
    then ok min_ymd
    else (utc_offset z t >>= λ offset.
        let local = t +ℤ offset in
        day_number_at local >>= λ jdn. from_day_number jdn >>= λ x.
        fill_in_hms_from_t local >>= λ h.
        ok (record x { hour = h.hour; minute = h.minute; second = h.second }))

abbrev pub is_special : UtcTime → Bool
is_special t = eqb_ℤ t no_utctime || eqb_ℤ t max_utctime || eqb_ℤ t min_utctime

-- sun=0, mon=1
unfoldable pub day_of_week_idx : YmdHms → ℕ
day_of_week_idx c =
    let a = (14 - c.month) / 12 in
    let y = to_u16 (c.year -ℤ pos a) in
    let m = c.month + 12 * a - 2 in (c.day + y + y / 4 - y / 100 + y / 400 + 31 * m / 12) % 7

-- mon=1, sun=7
unfoldable pub iso_week_day : YmdHms → ℕ
iso_week_day c = let wd = day_of_week_idx c in if wd == 0 then 7 else wd

unfoldable pub day_of_week : TzInfo → UtcTime → Outcome ℤ
day_of_week z t =
    if is_special t
    then ok (negsuc 0)
    else (calendar_units z t >>= λ c. ok (pos (day_of_week_idx c)))

-- The -1 of a special time is a `size_t`.
unfoldable pub day_of_year : TzInfo → UtcTime → Outcome ℕ
day_of_year z t =
    if is_special t
    then ok 18446744073709551615
    else (calendar_units z t >>= λ x.
        make_ymd x.year 1 1 0 0 0 >>= λ y. ok (1 + day_number x - day_number y))

unfoldable pub month : TzInfo → UtcTime → Outcome ℤ
month z t = if is_special t then ok (negsuc 0) else (calendar_units z t >>= λ c. ok (pos c.month))

-- The first month of each month's quarter, at the index of the month from 0.
abbrev pub mq : List ℕ
mq = 1 ∷ 1 ∷ 1 ∷ 4 ∷ 4 ∷ 4 ∷ 7 ∷ 7 ∷ 7 ∷ 10 ∷ 10 ∷ 10 ∷ []

unfoldable pub mq_at : ℕ → Outcome ℕ
mq_at m = at mq (pos m -ℤ pos 1)

unfoldable pub quarter : TzInfo → UtcTime → Outcome ℤ
quarter z t =
    if is_special t
    then ok (negsuc 0)
    else (calendar_units z t >>= λ c. mq_at c.month >>= λ first. ok (pos (1 + first / 3)))
