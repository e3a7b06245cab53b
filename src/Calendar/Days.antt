-- ===== src/Calendar/Days.antt =====
-- `YMDhms` and the conversions between dates and Julian day numbers, the static members of
-- `calendar` in core/utctime_utilities.h. Only the year of a coordinate can be negative here: the
-- range check refuses every other negative field.
--
-- `from_day_number` is given the day numbers below 2 ^ 29, where its `int` arithmetic stays in
-- range; `undefined` stands for the others.
pub mod Leap
pub mod Decode
pub mod RoundTrip
pub mod Onto
use shyft.Prelude.{ℕ, ◌+◌, ◌-◌, ◌*◌, ◌/◌, ◌%◌, ◌^◌, Bool, true, false, ◌&&◌, ◌||◌, not}
use shyft.Prelude.Tests.{ltb, leb, ◌==◌, if◌then◌else◌}
use shyft.Prelude.Int.{ℤ, pos, negsuc, pos_part, neg_part, ◌+ℤ◌, ◌-ℤ◌, ltb_ℤ, eqb_ℤ}
use shyft.Prelude.Outcome.{Outcome, ok, throw, undefined, runtime_error}

pub record YmdHms : Type 0 where
  pub year : ℤ
  pub month : ℕ
  pub day : ℕ
  pub hour : ℕ
  pub minute : ℕ
  pub second : ℕ

-- the default constructor
abbrev pub null_ymd : YmdHms
null_ymd = record { year = pos 0; month = 0; day = 0; hour = 0; minute = 0; second = 0 }

abbrev pub year_max : ℤ
year_max = pos 9999

-- -9999
abbrev pub year_min : ℤ
year_min = negsuc 9998

unfoldable pub is_valid_coordinates : YmdHms → Bool
is_valid_coordinates c = not (
    ltb_ℤ c.year year_min
    || ltb_ℤ year_max c.year
    || ltb c.month 1
    || ltb 12 c.month
    || ltb c.day 1
    || ltb 31 c.day
    || ltb 23 c.hour
    || ltb 59 c.minute
    || ltb 59 c.second)

unfoldable pub is_null : YmdHms → Bool
is_null c =
    eqb_ℤ c.year (pos 0)
    && c.month == 0
    && c.day == 0
    && c.hour == 0
    && c.minute == 0
    && c.second == 0

unfoldable pub is_valid_ymd : YmdHms → Bool
is_valid_ymd c = is_null c || is_valid_coordinates c

-- The constructor, with its check.
unfoldable pub make_ymd : ℤ → ℕ → ℕ → ℕ → ℕ → ℕ → Outcome YmdHms
make_ymd y m d h mi s =
    let c : YmdHms = record { year = y; month = m; day = d; hour = h; minute = mi; second = s } in
    if is_valid_ymd c then ok c else throw runtime_error

unfoldable pub ymd_eq : YmdHms → YmdHms → Bool
ymd_eq a b =
    eqb_ℤ a.year b.year
    && a.month == b.month
    && a.day == b.day
    && a.hour == b.hour
    && a.minute == b.minute
    && a.second == b.second

abbrev pub max_ymd : YmdHms
max_ymd = record { year = year_max; month = 12; day = 31; hour = 23; minute = 59; second = 59 }

abbrev pub min_ymd : YmdHms
min_ymd = record { year = year_min; month = 1; day = 1; hour = 0; minute = 0; second = 0 }

-- A conversion to `unsigned short`.
unfoldable pub to_u16 : ℤ → ℕ
to_u16 (pos n) = n % 65536
to_u16 (negsuc n) = 65535 - n % 65536

-- The year and the month counted from March, the year from 4800 BC: `y` and `m` of `day_number`.
unfoldable pub shifted_year : YmdHms → ℕ
shifted_year c = to_u16 (c.year +ℤ pos 4800 -ℤ pos ((14 - c.month) / 12))

unfoldable pub shifted_month : YmdHms → ℕ
shifted_month c = c.month + 12 * ((14 - c.month) / 12) - 3

-- The sum of `int` becomes an `unsigned long`.
unfoldable pub day_number : YmdHms → ℕ
day_number c =
    let y = shifted_year c in
    let sum = c.day + (153 * shifted_month c + 2) / 5 + 365 * y + y / 4 - y / 100 + y / 400 in
    (sum + (2 ^ 64 - 32045)) % 2 ^ 64

unfoldable pub from_day_number : ℕ → Outcome YmdHms
from_day_number n =
    let a = n + 32044 in
    let b = (4 * a + 3) / 146097 in
    let c = a - 146097 * b / 4 in
    let d = (4 * c + 3) / 1461 in
    let e = c - 1461 * d / 4 in
    let m = (5 * e + 2) / 153 in
    let day = e - (153 * m + 2) / 5 + 1 in
    let month = m + 3 - 12 * (m / 10) in
    let year = to_u16 (pos (100 * b + d + m / 10) -ℤ pos 4800) in
    if ltb n (2 ^ 29 - 32044) then make_ymd (pos year) month day 0 0 0 else undefined
