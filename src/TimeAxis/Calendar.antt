-- ===== src/TimeAxis/Calendar.antt =====
-- `calendar_dt` of core/time_axis.h: `n` steps of a calendar from `t` on. The calendar is its time
-- zone. A negative step has no meaning in the source; here the step is a natural number. `none`
-- stands for `std::string::npos`.
pub mod Fixed
use Prim.Native.Nat.{pred}
use shyft.Prelude.{ℕ, ◌+◌, ◌-◌, ◌*◌, ◌/◌, ◌^◌, Bool, ◌&&◌, not, Option, none, some}
use shyft.Prelude.Tests.{ltb, leb, ◌==◌, if◌then◌else◌}
use shyft.Prelude.Int.{ℤ, pos, negsuc, pos_part, ◌+ℤ◌, ◌-ℤ◌, leb_ℤ, eqb_ℤ}
use shyft.Prelude.Outcome.{Outcome, ok, throw, out_of_range, ◌>>=◌}
use shyft.Utc.{UtcTime, UtcPeriod, period, min_utctime, no_utctime, contains}
use shyft.Calendar.Zone.{TzInfo, fixed_zone}
use shyft.Calendar.Steps.{add, diff_units}

pub record CalendarDt : Type 0 where
  pub cal : TzInfo
  pub t : UtcTime
  pub dt : ℕ
  pub n : ℕ

-- the default constructor, with some calendar in place of none
abbrev pub null_range : CalendarDt
null_range = record { cal = fixed_zone (pos 0); t = no_utctime; dt = 0; n = 0 }

abbrev pub dt_h : ℕ
dt_h = 3600

-- `same_calendar` is whether the two calendars are one object, or have one name.
unfoldable pub calendar_eq : Bool → CalendarDt → CalendarDt → Bool
calendar_eq same_calendar a b = same_calendar && eqb_ℤ a.t b.t && a.dt == b.dt && a.n == b.n

unfoldable pub size : CalendarDt → ℕ
size a = a.n

-- The time `i` steps after the start.
unfoldable pub time_at : CalendarDt → ℕ → Outcome UtcTime
time_at a i = if leb a.dt dt_h then ok (a.t +ℤ pos (i * a.dt)) else add a.cal a.t (pos a.dt) (pos i)

unfoldable pub total_period : CalendarDt → Outcome UtcPeriod
total_period a =
    if a.n == 0
    then ok (period min_utctime min_utctime)
    else (time_at a a.n >>= λ end. ok (period a.t end))

unfoldable pub time : CalendarDt → ℕ → Outcome UtcTime
time a i = if ltb i a.n then time_at a i else throw out_of_range

unfoldable pub period_at : CalendarDt → ℕ → Outcome UtcPeriod
period_at a i =
    if ltb i a.n
    then (time_at a i >>= λ start. time_at a (i + 1) >>= λ end. ok (period start end))
    else throw out_of_range

-- A conversion to `size_t`.
abbrev pub to_size : ℤ → ℕ
to_size (pos k) = k
to_size (negsuc k) = 2 ^ 64 - 1 - k

-- The difference is not negative, and the step not 0, where the division is made.
unfoldable pub index_of : CalendarDt → UtcTime → Outcome (Option ℕ)
index_of a tx = total_period a >>= λ p.
    if not (contains p tx)
    then ok none
    else if leb a.dt dt_h
    then ok (some (pos_part (tx -ℤ a.t) / a.dt))
    else (diff_units a.cal a.t tx (pos a.dt) >>= λ d. ok (some (to_size d.0)))

unfoldable pub open_range_index_of : CalendarDt → UtcTime → Outcome (Option ℕ)
open_range_index_of a tx = total_period a >>= λ p.
    if leb_ℤ p.end tx && ltb 0 a.n then ok (some (pred a.n)) else index_of a tx
