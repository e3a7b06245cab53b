-- ===== src/Calendar/Units/RoundTrip.antt =====
-- Times to coordinates and back.
use shyft.Prelude.{
  ℕ, ◌+◌, ◌-◌, ◌*◌, ◌/◌, ◌%◌, ◌^◌, ◌≤◌, ◌<◌, ◌≡◌, inl, inr, ap, ◌∙◌, refl, sym, arith, true, false,
}
use mathlib.Core.Path.{subst}
use shyft.Prelude.Tests.{Bool-cases}
use shyft.Prelude.Int.{
  ℤ, pos, negsuc, pos_part, neg_part, ◌+ℤ◌, ◌-ℤ◌, ◌*ℤ◌, ◌≤ℤ◌, ◌<ℤ◌, eqb_ℤ, to_int, +ℤ_parts,
  -ℤ_parts, eq_of_parts,
}
use shyft.Prelude.Outcome.{ok, ◌>>=◌}
use shyft.Utc.{UtcTime, UtcTimespan, no_utctime, max_utctime, min_utctime}
use shyft.Calendar.Days.{
  YmdHms, day_number, shifted_year, shifted_month, to_u16, is_null, ymd_eq, max_ymd, min_ymd,
  is_valid_coordinates,
}
use shyft.Calendar.Days.Leap.{days_in_month}
use shyft.Calendar.Days.RoundTrip.{
  ymd, IsDate, IsDate-IsDay, day_number-ymd, from_day_number-day_number,
}
use shyft.Calendar.Days.Onto.{day_number-from_day_number}
use shyft.Calendar.Zone.{TzInfo, utc_offset, julian_second, day_number_at}
use shyft.Calendar.Units.{
  time, calendar_units, seconds, local_seconds, local_to_utc, fill_in_hms_from_t,
}

-- The coordinates of a date and a time of day.
abbrev pub at_time : ℕ → ℕ → ℕ → ℕ → ℕ → ℕ → YmdHms
at_time y m d h mi s = record {
  year = pos y;
  month = m;
  day = d;
  hour = h;
  minute = mi;
  second = s;
}

pub record IsTimeOfDay (h mi s : ℕ) : Type 0 where
  pub hour_in : h ≤ 23
  pub minute_in : mi ≤ 59
  pub second_in : s ≤ 59

-- The zone has one offset, `o`, where the source looks it up for the local time `r`.
pub record IsOffset (z : TzInfo) (r : UtcTime) (o : UtcTimespan) : Type 0 where
  pub at_local : utc_offset z r ≡ ok o
  pub at_utc : utc_offset z (r -ℤ o) ≡ ok o
  pub small : pos_part o + neg_part o < 86400

pub local_to_utc-IsOffset :
    (z : TzInfo) (r : UtcTime) (o : UtcTimespan) → IsOffset z r o → local_to_utc z r ≡ ok (r -ℤ o)
unfolding local_to_utc
local_to_utc-IsOffset z r o H = rw (H.at_local, H.at_utc) (ground arith)

-- The second of the Julian count that a local time has.
pub local_seconds_parts :
    (n h mi s : ℕ)
    → n < 2 ^ 31
    → pos_part (local_seconds n h mi s) + 210866803200
      ≡ neg_part (local_seconds n h mi s) + 86400 * n + seconds h mi s
unfolding local_seconds to_int ◌*ℤ◌ ◌-ℤ◌ ◌+ℤ◌
local_seconds_parts n h mi s k = ground (arith, k)

pub julian_second_lem :
    (t : UtcTime) (n : ℕ)
    → pos_part t + 210866803200 ≡ neg_part t + n
    → n < 2 ^ 63
    → julian_second t ≡ ok n
unfolding julian_second ◌+ℤ◌
julian_second_lem t n e k = ground (arith, e, k)

pub day_number-IsDate : (y m d : ℕ) → IsDate y m d → day_number (ymd y m d) ≤ 5373484
unfolding days_in_month
day_number-IsDate y m d D =
    let I = IsDate-IsDay y m d D in
    omega (arith, day_number-ymd y m d D, D.year_in, D.month_in, I.in_year)

-- The time of day of a second of the Julian count.
time_of_day_parts :
    (n h mi s : ℕ)
    → IsTimeOfDay h mi s
    → let t = 86400 * n + seconds h mi s in
      (t / 86400 ≡ n)
      × ((t - 86400 * n) / 3600 ≡ h)
      × ((t - 86400 * n - h * 3600) / 60 ≡ mi)
      × ((t - 86400 * n - h * 3600) % 60 ≡ s)
time_of_day_parts n h mi s T = (
  omega (arith, T.hour_in, T.minute_in, T.second_in),
  omega (arith, T.hour_in, T.minute_in, T.second_in),
  omega (arith, T.hour_in, T.minute_in, T.second_in),
  omega (arith, T.hour_in, T.minute_in, T.second_in),
)

-- The local time of coordinates, as the source counts it.
abbrev pub local_time : ℕ → ℕ → ℕ → ℕ → ℕ → ℕ → UtcTime
local_time y m d h mi s = local_seconds (day_number (ymd y m d)) h mi s

at_time-checks :
    (y m d h mi s : ℕ)
    → IsDate y m d
    → IsTimeOfDay h mi s
    → (is_null (at_time y m d h mi s) ≡ false)
      × (ymd_eq (at_time y m d h mi s) min_ymd ≡ false)
      × (is_valid_coordinates (at_time y m d h mi s) ≡ true)
unfolding is_null ymd_eq is_valid_coordinates days_in_month
at_time-checks y m d h mi s D T = (
  ground (arith, D.month_in),
  ground (arith, D.year_in),
  ground (arith, D.year_in, D.month_in, D.day_in, T.hour_in, T.minute_in, T.second_in),
)

day_number-at_time : (y m d h mi s : ℕ) → day_number (at_time y m d h mi s) ≡ day_number (ymd y m d)
unfolding day_number shifted_year shifted_month
day_number-at_time y m d h mi s = refl

pub back_to_local : (r o : ℤ) → r -ℤ o +ℤ o ≡ r
back_to_local r o = eq_of_parts (r -ℤ o +ℤ o) r (omega (arith, -ℤ_parts r o, +ℤ_parts (r -ℤ o) o))

-- A time of the calendar is none of the special values.
not_special :
    (t : UtcTime)
    → pos_part t < neg_part t + 2 ^ 62
    → neg_part t < pos_part t + 2 ^ 62
    → (eqb_ℤ t no_utctime ≡ false) × (eqb_ℤ t max_utctime ≡ false) × (eqb_ℤ t min_utctime ≡ false)
not_special t h k = (ground (arith, h, k), ground (arith, h, k), ground (arith, h, k))

module _ (z : TzInfo) (y m d h mi s : ℕ) (o : UtcTimespan) (D : IsDate y m d)
    (T : IsTimeOfDay h mi s) (H : IsOffset z (local_time y m d h mi s) o) where
  local_second :
      julian_second (local_time y m d h mi s) ≡ ok (86400 * day_number (ymd y m d) + seconds h mi s)
  local_second =
      let bound = day_number-IsDate y m d D in
      julian_second_lem (local_time y m d h mi s) (86400 * day_number (ymd y m d) + seconds h mi s)
        (omega (arith, local_seconds_parts (day_number (ymd y m d)) h mi s (omega (arith, bound))))
        (omega (arith, bound, T.hour_in, T.minute_in, T.second_in))

  pub time-at_time :
      ymd_eq (at_time y m d h mi s) max_ymd ≡ false
      → time z (at_time y m d h mi s) ≡ ok (local_time y m d h mi s -ℤ o)
  unfolding time
  time-at_time not_last =
      let (null_not, min_not, valid) = at_time-checks y m d h mi s D T in
      rw (null_not, not_last, min_not, valid, day_number-at_time y m d h mi s)
        (local_to_utc-IsOffset z (local_time y m d h mi s) o H)

  pub local_time-not_special :
      (eqb_ℤ (local_time y m d h mi s -ℤ o) no_utctime ≡ false)
      × (eqb_ℤ (local_time y m d h mi s -ℤ o) max_utctime ≡ false)
      × (eqb_ℤ (local_time y m d h mi s -ℤ o) min_utctime ≡ false)
  local_time-not_special =
      let bound = day_number-IsDate y m d D in
      let r = local_time y m d h mi s in
      let parts = local_seconds_parts (day_number (ymd y m d)) h mi s (omega (arith, bound)) in
      not_special (r -ℤ o)
        (omega (arith, -ℤ_parts r o, parts, H.small, bound, T.hour_in, T.minute_in, T.second_in))
        (omega (arith, -ℤ_parts r o, parts, H.small, bound, T.hour_in, T.minute_in, T.second_in))

  pub calendar_units-local_time :
      calendar_units z (local_time y m d h mi s -ℤ o) ≡ ok (at_time y m d h mi s)
  unfolding calendar_units day_number_at fill_in_hms_from_t
  calendar_units-local_time =
      let r = local_time y m d h mi s in
      let (no_not, max_not, min_not) = local_time-not_special in
      let (day_is, hour_is, minute_is, second_is) =
        time_of_day_parts (day_number (ymd y m d)) h mi s T in
      rw
        (
          no_not,
          max_not,
          min_not,
          H.at_utc,
          back_to_local r o,
          local_second,
          day_is,
          from_day_number-day_number y m d D,
          hour_is,
          minute_is,
          second_is,
        )
        refl

  -- A date and a time of day of the years 0 to 9999 come back from their time, where the zone has one
  -- offset, below a day, at both of its lookups; the last second of year 9999 is not one of them.
  pub calendar_units-time :
      ymd_eq (at_time y m d h mi s) max_ymd ≡ false
      → (time z (at_time y m d h mi s) >>= calendar_units z) ≡ ok (at_time y m d h mi s)
  calendar_units-time not_last = rw (time-at_time not_last) calendar_units-local_time

last_parts :
    (y m d h mi s : ℕ)
    → ymd_eq (at_time y m d h mi s) max_ymd ≡ true
    → (y ≡ 9999) × (m ≡ 12) × (d ≡ 31) × (h * 3600 + mi * 60 + s ≡ 86399)
unfolding ymd_eq
last_parts y m d h mi s e =
    (ground (arith, e), ground (arith, e), ground (arith, e), ground (arith, e))

last_day : day_number (ymd 9999 12 31) ≡ 5373484
unfolding day_number shifted_year shifted_month to_u16 ◌-ℤ◌ ◌+ℤ◌
last_day = refl

not_last_lem :
    (y m d h mi s : ℕ)
    → 86400 * day_number (ymd y m d) + seconds h mi s < 86400 * 5373484 + 86399
    → ymd_eq (at_time y m d h mi s) max_ymd ≡ false
not_last_lem y m d h mi s before = elim (Bool-cases (ymd_eq (at_time y m d h mi s) max_ymd)) [
  | inr e ↦ e
  | inl e ↦
      let (y_is, m_is, d_is, time_is) = last_parts y m d h mi s e in
      let day : day_number (ymd y m d) ≡ 5373484 = rw (y_is, m_is, d_is) last_day in
      ground (arith, before, day, time_is)
]

-- The second of the Julian count, split into a date and a time of day.
coordinates_of :
    (r : ℤ)
    → negsuc 62167219199 ≤ℤ r
    → r <ℤ pos 253402300799
    → (y m d h mi s : ℕ) × IsDate y m d
      × IsTimeOfDay h mi s
      × (r ≡ local_time y m d h mi s)
      × (ymd_eq (at_time y m d h mi s) max_ymd ≡ false)
coordinates_of r low high =
    let n = pos_part r + 210866803200 - neg_part r in
    let (y, m, d, D, from, number) =
      day_number-from_day_number (n / 86400) (omega (arith, low, high))
        (omega (arith, low, high)) in
    let x = n % 86400 in
    let parts =
      local_seconds_parts (day_number (ymd y m d)) (x / 3600) (x % 3600 / 60) (x % 60)
        (omega (arith, day_number-IsDate y m d D)) in
    let same : r ≡ local_time y m d (x / 3600) (x % 3600 / 60) (x % 60) =
      eq_of_parts r (local_time y m d (x / 3600) (x % 3600 / 60) (x % 60))
        (omega (arith, parts, number, low, high)) in
    (
      y,
      m,
      d,
      x / 3600,
      x % 3600 / 60,
      x % 60,
      D,
      record { hour_in = omega arith; minute_in = omega arith; second_in = omega arith },
      same,
      not_last_lem y m d (x / 3600) (x % 3600 / 60) (x % 60) (omega (arith, number, low, high)),
    )

-- A time whose local time is in the years 0 to 9999, before their last second, comes back from its
-- coordinates, where the zone has one offset, below a day, at both of its lookups.
pub time-calendar_units :
    (z : TzInfo) (t : UtcTime) (o : UtcTimespan)
    → IsOffset z (t +ℤ o) o
    → negsuc 62167219199 ≤ℤ t +ℤ o
    → t +ℤ o <ℤ pos 253402300799
    → (calendar_units z t >>= time z) ≡ ok t
time-calendar_units z t o H low high =
    let (y, m, d, h, mi, s, D, T, same, not_last) = coordinates_of (t +ℤ o) low high in
    let H2 : IsOffset z (local_time y m d h mi s) o = subst (λ r. IsOffset z r o) same H in
    let t_is : local_time y m d h mi s -ℤ o ≡ t = ap (λ r. r -ℤ o) (sym same) ∙ forth t o in
    let units : calendar_units z t ≡ ok (at_time y m d h mi s) =
      subst (λ q. calendar_units z q ≡ ok (at_time y m d h mi s)) t_is
        (calendar_units-local_time z y m d h mi s o D T H2) in
    rw (units, time-at_time z y m d h mi s o D T H2 not_last, t_is) refl
  where
    forth : (t o : ℤ) → t +ℤ o -ℤ o ≡ t
    forth t o = eq_of_parts (t +ℤ o -ℤ o) t (omega (arith, +ℤ_parts t o, -ℤ_parts (t +ℤ o) o))
