-- ===== src/Calendar/Steps/Trim.antt =====
-- `trim` to a calendar unit in any zone, and to other steps in the zones of a fixed offset.
use native.Mathlib.Omega.{div_any}
use shyft.Prelude.{
  ℕ, zero, suc, ◌+◌, ◌-◌, ◌*◌, ◌/◌, ◌%◌, ◌≤◌, ◌<◌, ◌≡◌, ◌≢◌, refl, ◌∙◌, arith, false,
}
use shyft.Prelude.Int.{
  ℤ, pos, pos_part, neg_part, ◌+ℤ◌, ◌-ℤ◌, eqb_ℤ, quot_ℤ, div_ℤ, +ℤ_parts, -ℤ_parts, -ℤ_pos,
  eq_of_parts,
}
use shyft.Prelude.Outcome.{Outcome, ok}
use shyft.Utc.{UtcTime, UtcTimespan}
use shyft.Calendar.Days.{ymd_eq, max_ymd}
use shyft.Calendar.Days.Leap.{days_in_month}
use shyft.Calendar.Days.RoundTrip.{ymd, IsDate, make_ymd-ymd}
use shyft.Calendar.Zone.{TzInfo, day_length, at, fixed_zone}
use shyft.Calendar.Units.{time, is_special, mq, mq_at}
use shyft.Calendar.Units.RoundTrip.{
  local_time, IsTimeOfDay, IsOffset, time-at_time, calendar_units-local_time,
  local_time-not_special,
}
use shyft.Calendar.Steps.{trim, trim_span, trim_origin, month_length, quarter_length, year_length}
use shyft.Calendar.Steps.Fixed.{IsSpan, utc_offset-fixed_zone, pos-eqb, *ℤ_pos}

pub data CalendarUnit : Type 0 where
  day month quarter year : CalendarUnit

abbrev pub unit_span : CalendarUnit → UtcTimespan
unit_span day = pos day_length
unit_span month = pos month_length
unit_span quarter = pos quarter_length
unit_span year = pos year_length

-- The month and the day in which the unit of a date starts.
abbrev pub start_month : CalendarUnit → ℕ → ℕ
start_month day m = m
start_month month m = m
start_month quarter m = 3 * ((m - 1) / 3) + 1
start_month year m = 1

abbrev pub start_day : CalendarUnit → ℕ → ℕ
start_day day d = d
start_day month d = 1
start_day quarter d = 1
start_day year d = 1

abbrev quarter_months : ℕ → Outcome ℕ
quarter_months j = at mq (pos j)

quarter_start : (j : ℕ) → j < 12 → quarter_months j ≡ ok (3 * (j / 3) + 1)
unfolding at
quarter_start zero h = refl
quarter_start (suc zero) h = refl
quarter_start (suc (suc zero)) h = refl
quarter_start (suc (suc (suc zero))) h = refl
quarter_start (suc (suc (suc (suc zero)))) h = refl
quarter_start (suc (suc (suc (suc (suc zero))))) h = refl
quarter_start (suc (suc (suc (suc (suc (suc zero)))))) h = refl
quarter_start (suc (suc (suc (suc (suc (suc (suc zero))))))) h = refl
quarter_start (suc (suc (suc (suc (suc (suc (suc (suc zero)))))))) h = refl
quarter_start (suc (suc (suc (suc (suc (suc (suc (suc (suc zero))))))))) h = refl
quarter_start (suc (suc (suc (suc (suc (suc (suc (suc (suc (suc zero)))))))))) h = refl
quarter_start (suc (suc (suc (suc (suc (suc (suc (suc (suc (suc (suc zero))))))))))) h = refl
quarter_start (suc (suc (suc (suc (suc (suc (suc (suc (suc (suc (suc (suc j)))))))))))) h =
    absurd (omega (arith, h))

mq_at-quarter : (m : ℕ) → 1 ≤ m → m ≤ 12 → mq_at m ≡ ok (3 * ((m - 1) / 3) + 1)
unfolding mq_at
mq_at-quarter m low high = rw (-ℤ_pos m 1 low) (quarter_start (m - 1) (omega (arith, low, high)))

first-IsDate : (y m : ℕ) → y ≤ 9999 → 1 ≤ m → m ≤ 12 → IsDate y m 1
unfolding days_in_month
first-IsDate y m h k l = record {
  year_in = h;
  month_in = (k, l);
  day_in = (omega arith, ground arith);
}

start-IsDate :
    (u : CalendarUnit) (y m d : ℕ) → IsDate y m d → IsDate y (start_month u m) (start_day u d)
start-IsDate day y m d D = D
start-IsDate month y m d D = first-IsDate y m D.year_in D.month_in.0 D.month_in.1
start-IsDate quarter y m d D =
    first-IsDate y (3 * ((m - 1) / 3) + 1) D.year_in (omega arith) (omega (arith, D.month_in))
start-IsDate year y m d D = first-IsDate y 1 D.year_in (omega arith) (omega arith)

midnight-not_last : (y m d : ℕ) → ymd_eq (ymd y m d) max_ymd ≡ false
unfolding ymd_eq
midnight-not_last y m d = ground arith

module _ (z : TzInfo) (y m d h mi s : ℕ) (o start_offset : UtcTimespan) (D : IsDate y m d)
    (T : IsTimeOfDay h mi s) (H : IsOffset z (local_time y m d h mi s) o) where
  trim-time :
      (u : CalendarUnit)
      → trim z (local_time y m d h mi s -ℤ o) (unit_span u)
        ≡ time z (ymd y (start_month u m) (start_day u d))
  unfolding trim
  trim-time day =
      let (no_not, max_not, min_not) = local_time-not_special z y m d h mi s o D T H in
      rw (no_not, max_not, min_not, calendar_units-local_time z y m d h mi s o D T H) refl
  trim-time month =
      let (no_not, max_not, min_not) = local_time-not_special z y m d h mi s o D T H in
      rw (no_not, max_not, min_not, calendar_units-local_time z y m d h mi s o D T H) refl
  trim-time quarter =
      let (no_not, max_not, min_not) = local_time-not_special z y m d h mi s o D T H in
      rw
        (
          no_not,
          max_not,
          min_not,
          calendar_units-local_time z y m d h mi s o D T H,
          mq_at-quarter m D.month_in.0 D.month_in.1,
          make_ymd-ymd y (3 * ((m - 1) / 3) + 1) 1 (start-IsDate quarter y m d D),
        )
        refl
  trim-time year =
      let (no_not, max_not, min_not) = local_time-not_special z y m d h mi s o D T H in
      rw (no_not, max_not, min_not, calendar_units-local_time z y m d h mi s o D T H) refl

  -- A time of the years 0 to 9999 is trimmed to the start of its day, month, quarter or year, in any
  -- zone that has one offset at both lookups for the time, and one for the start.
  pub trim-start :
      (u : CalendarUnit)
      → IsOffset z (local_time y (start_month u m) (start_day u d) 0 0 0) start_offset
      → trim z (local_time y m d h mi s -ℤ o) (unit_span u)
        ≡ ok (local_time y (start_month u m) (start_day u d) 0 0 0 -ℤ start_offset)
  trim-start u K =
      trim-time u
      ∙ time-at_time z y (start_month u m) (start_day u d) 0 0 0 start_offset
          (start-IsDate u y m d D) midnight K
          (midnight-not_last y (start_month u m) (start_day u d))
    where
      midnight : IsTimeOfDay 0 0 0
      midnight = record { hour_in = omega arith; minute_in = omega arith; second_in = omega arith }

-- In a zone of a fixed offset a step that is no day, month, quarter or year trims to a multiple of
-- itself, counted in local time from a monday 2000 years of 52 weeks and 3 days before 1970: `s` is the time so counted, from
-- which the rest goes. The time is none of the special ones.
pub trim-fixed_zone :
    (base : UtcTimespan) (t : UtcTime) (k s : ℕ)
    → IsSpan k
    → k ≢ day_length
    → is_special t ≡ false
    → t +ℤ (trim_origin +ℤ base) ≡ pos s
    → trim (fixed_zone base) t (pos k) ≡ ok (t -ℤ pos (s % k))
unfolding trim trim_span quot_ℤ div_ℤ
trim-fixed_zone base t k s S no_day plain count =
    let some_step : eqb_ℤ (pos k) (pos 0) ≡ false = ground (arith, S.positive) in
    let whole : k * (s / k) + s % k ≡ s = div_any s k in
    let down = pos (k * (s / k)) -ℤ trim_origin in
    let rest : down -ℤ base ≡ t -ℤ pos (s % k) = eq_of_parts (down -ℤ base) (t -ℤ pos (s % k)) (
      omega (
        arith,
        parts_of count,
        whole,
        +ℤ_parts t (trim_origin +ℤ base),
        +ℤ_parts trim_origin base,
        -ℤ_parts (pos (k * (s / k))) trim_origin,
        -ℤ_parts down base,
        -ℤ_parts t (pos (s % k)),
      )) in
    rw
      (
        plain,
        some_step,
        pos-eqb k year_length S.no_year,
        pos-eqb k quarter_length S.no_quarter,
        pos-eqb k month_length S.no_month,
        pos-eqb k day_length no_day,
        utc_offset-fixed_zone base t,
        count,
        *ℤ_pos k (s / k),
        utc_offset-fixed_zone base down,
        rest,
      )
      refl
  where
    parts_of : {a : ℤ} {s : ℕ} → a ≡ pos s → pos_part a ≡ s + neg_part a
    parts_of e = rw e (omega arith)
