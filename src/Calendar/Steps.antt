-- ===== src/Calendar/Steps.antt =====
-- Arithmetic in calendar units, in core/utctime_utilities.cpp: `trim`, `add` and `diff_units`.
pub mod Months
pub mod Spans
pub mod Fixed
pub mod Trim
use shyft.Prelude.{ℕ, ◌+◌, ◌-◌, ◌*◌, ◌/◌, ◌%◌, Bool, true, false, ◌&&◌, ◌||◌, not}
use shyft.Prelude.Tests.{◌==◌, if◌then◌else◌}
use shyft.Prelude.Int.{
  ℤ, pos, negsuc, pos_part, ◌+ℤ◌, ◌-ℤ◌, ◌*ℤ◌, ltb_ℤ, eqb_ℤ, div_ℤ, quot_ℤ, to_int,
}
use shyft.Prelude.Outcome.{Outcome, ok, throw, undefined, runtime_error, ◌>>=◌}
use shyft.Utc.{UtcTime, UtcTimespan, no_utctime, max_utctime, min_utctime}
use shyft.Calendar.Days.{YmdHms, make_ymd}
use shyft.Calendar.Zone.{TzInfo, day_length, utc_offset}
use shyft.Calendar.Units.{time, calendar_units, is_special, mq_at}

abbrev pub hour_length : ℕ
hour_length = 3600

abbrev pub week_length : ℕ
week_length = 604800

abbrev pub month_length : ℕ
month_length = 2592000

abbrev pub quarter_length : ℕ
quarter_length = 7776000

abbrev pub year_length : ℕ
year_length = 31536000

-- 3 days to get to a monday, and 2000 years to get to a positive number
abbrev pub trim_origin : ℤ
trim_origin = pos (3 * day_length + week_length * 52 * 2000)

-- The steps that are no calendar unit, and the week.
unfoldable pub trim_span : TzInfo → UtcTime → UtcTimespan → Outcome UtcTime
trim_span z t delta_t = utc_offset z t >>= λ offset.
    let from = t +ℤ (trim_origin +ℤ offset) in
    let down = delta_t *ℤ quot_ℤ from delta_t -ℤ trim_origin in
    utc_offset z down >>= λ back. ok (down -ℤ back)

unfoldable pub trim : TzInfo → UtcTime → UtcTimespan → Outcome UtcTime
trim z t delta_t =
    if is_special t || eqb_ℤ delta_t (pos 0)
    then ok t
    else if eqb_ℤ delta_t (pos year_length)
    then (calendar_units z t >>= λ c.
        time z (record c { month = 1; day = 1; hour = 0; minute = 0; second = 0 }))
    else if eqb_ℤ delta_t (pos quarter_length)
    then (calendar_units z t >>= λ c. mq_at c.month >>= λ m. make_ymd c.year m 1 0 0 0 >>= time z)
    else if eqb_ℤ delta_t (pos month_length)
    then (calendar_units z t >>= λ c.
        time z (record c { day = 1; hour = 0; minute = 0; second = 0 }))
    else if eqb_ℤ delta_t (pos day_length)
    then (calendar_units z t >>= λ c. time z (record c { hour = 0; minute = 0; second = 0 }))
    else trim_span z t delta_t

-- Years and months on top of a date, with one carry.
unfoldable pub carry_months : YmdHms → ℤ → ℤ → YmdHms
carry_months c nyears nmonths =
    let year = c.year +ℤ nyears in
    let m = pos c.month +ℤ nmonths in
    if ltb_ℤ m (pos 1)
    then record c { year = year -ℤ pos 1; month = pos_part (m +ℤ pos 12) }
    else if ltb_ℤ (pos 12) m
    then record c { year = year +ℤ pos 1; month = pos_part (m -ℤ pos 12) }
    else record c { year = year; month = pos_part m }

-- Whole years first, then the months that remain.
unfoldable pub add_months : YmdHms → ℤ → UtcTimespan → YmdHms
add_months c n dt =
    let nyears = to_int (quot_ℤ (quot_ℤ dt (pos month_length)) (pos 12)) in
    carry_months c nyears (to_int (n -ℤ nyears *ℤ pos 12))

-- The steps that are no month or year: the day is as long as the zone has it.
unfoldable pub add_span : TzInfo → UtcTime → UtcTimespan → Outcome UtcTime
add_span z t dt =
    let r = t +ℤ dt in
    utc_offset z t >>= λ diff_1. utc_offset z r >>= λ diff_2. ok (r +ℤ (diff_1 -ℤ diff_2))

unfoldable pub add : TzInfo → UtcTime → UtcTimespan → ℤ → Outcome UtcTime
add z t delta_t n =
    let dt = n *ℤ delta_t in
    if eqb_ℤ delta_t (pos year_length)
    then (calendar_units z t >>= λ c.
        time z (record c { year = c.year +ℤ to_int (quot_ℤ dt (pos year_length)) }))
    else if eqb_ℤ delta_t (pos quarter_length)
    then (calendar_units z t >>= λ c. time z (add_months c (pos 3 *ℤ n) dt))
    else if eqb_ℤ delta_t (pos month_length)
    then (calendar_units z t >>= λ c. time z (add_months c n dt))
    else add_span z t dt

-- The units of fixed length, below a day, from the earlier time to the later: units and remainder.
unfoldable pub diff_below_day : TzInfo → UtcTime → UtcTime → UtcTimespan → Outcome (ℤ × UtcTimespan)
diff_below_day z t1 t2 delta_t =
    let n_units = quot_ℤ (t2 -ℤ t1) delta_t in
    if ltb_ℤ (pos hour_length) delta_t
    then (utc_offset z t1 >>= λ diff_1. utc_offset z t2 >>= λ diff_2.
        let n = quot_ℤ (t2 -ℤ t1 -ℤ (diff_1 -ℤ diff_2)) delta_t in
        add z t1 delta_t n >>= λ t. ok (n, t2 -ℤ t))
    else ok (n_units, t2 -ℤ (t1 +ℤ n_units *ℤ delta_t))

-- The first estimate: months and years are longer than their constants.
unfoldable pub estimate_units : UtcTime → UtcTime → UtcTimespan → ℤ
estimate_units t1 t2 delta_t =
    let n = quot_ℤ (t2 -ℤ t1) delta_t in
    if eqb_ℤ delta_t (pos month_length)
    then n -ℤ div_ℤ n 72
    else if eqb_ℤ delta_t (pos quarter_length)
    then n -ℤ div_ℤ n (3 * 72)
    else if eqb_ℤ delta_t (pos year_length)
    then n -ℤ div_ℤ n (4 * 365 * 365)
    else n

-- Days and longer: one step back or forth from the estimate.
unfoldable pub diff_from_day : TzInfo → UtcTime → UtcTime → UtcTimespan → Outcome (ℤ × UtcTimespan)
diff_from_day z t1 t2 delta_t =
    let n = estimate_units t1 t2 delta_t in
    add z t1 delta_t n >>= λ t2x.
    if ltb_ℤ t2 t2x
    then (add z t1 delta_t (n -ℤ pos 1) >>= λ t. ok (n -ℤ pos 1, t2 -ℤ t))
    else if ltb_ℤ t2x t2
    then (add z t1 delta_t (n +ℤ pos 1) >>= λ t2xx.
        ok (if ltb_ℤ t2 t2xx then (n, t2 -ℤ t2x) else (n +ℤ pos 1, t2 -ℤ t2xx)))
    else ok (n, pos 0)

unfoldable pub diff_ordered : TzInfo → UtcTime → UtcTime → UtcTimespan → Outcome (ℤ × UtcTimespan)
diff_ordered z t1 t2 delta_t =
    if ltb_ℤ delta_t (pos day_length)
    then diff_below_day z t1 t2 delta_t
    else diff_from_day z t1 t2 delta_t

-- The units, with their sign, and the remainder.
unfoldable pub diff_units : TzInfo → UtcTime → UtcTime → UtcTimespan → Outcome (ℤ × UtcTimespan)
diff_units z t1 t2 delta_t =
    if eqb_ℤ t1 no_utctime || eqb_ℤ t2 no_utctime || eqb_ℤ delta_t (pos 0)
    then ok (pos 0, pos 0)
    else if ltb_ℤ t2 t1
    then (diff_ordered z t2 t1 delta_t >>= λ d. ok (d.0 *ℤ negsuc 0, d.1))
    else (diff_ordered z t1 t2 delta_t >>= λ d. ok (d.0 *ℤ pos 1, d.1))
