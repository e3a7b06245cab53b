-- ===== src/TimeAxis/Fixed.antt =====
-- `fixed_dt` of core/time_axis.h: `n` periods of one length from `t` on. The length is a signed
-- number in the source; a negative one has no meaning there, and here it is a natural number.
-- `none` stands for `std::string::npos`. No sum here leaves the range of 64 bits if the end of the
-- axis does not, which is `t + n * dt`.
pub mod Index
use Prim.Native.Nat.{pred}
use shyft.Prelude.{ℕ, ◌+◌, ◌*◌, ◌/◌, Bool, ◌&&◌, ◌||◌, not, Option, none, some}
use shyft.Prelude.Tests.{ltb, leb, ◌==◌, if◌then◌else◌}
use shyft.Prelude.Int.{ℤ, pos, pos_part, ◌+ℤ◌, ◌-ℤ◌, ltb_ℤ, leb_ℤ, eqb_ℤ}
use shyft.Prelude.Outcome.{Outcome, ok, throw, out_of_range}
use shyft.Utc.{UtcTime, UtcTimespan, UtcPeriod, period, min_utctime}

pub record FixedDt : Type 0 where
  pub t : UtcTime
  pub dt : ℕ
  pub n : ℕ

unfoldable pub fixed_eq : FixedDt → FixedDt → Bool
fixed_eq a b = eqb_ℤ a.t b.t && a.dt == b.dt && a.n == b.n

unfoldable pub size : FixedDt → ℕ
size a = a.n

abbrev pub full_range : FixedDt
full_range = record { t = min_utctime; dt = 0x7FFFFFFFFFFFFFFF; n = 2 }

abbrev pub null_range : FixedDt
null_range = record { t = pos 0; dt = 0; n = 0 }

-- The time `i` periods after the start.
unfoldable pub time_at : FixedDt → ℕ → UtcTime
time_at a i = a.t +ℤ pos (i * a.dt)

unfoldable pub total_period : FixedDt → UtcPeriod
unfolding time_at
total_period a = if a.n == 0 then period min_utctime min_utctime else period a.t (time_at a a.n)

unfoldable pub time : FixedDt → ℕ → Outcome UtcTime
unfolding time_at
time a i = if ltb i a.n then ok (time_at a i) else throw out_of_range

unfoldable pub period_at : FixedDt → ℕ → Outcome UtcPeriod
unfolding time_at
period_at a i =
    if ltb i a.n then ok (period (time_at a i) (time_at a (i + 1))) else throw out_of_range

-- The difference is not negative where the division is made.
unfoldable pub index_of : FixedDt → UtcTime → Option ℕ
index_of a tx =
    if ltb_ℤ tx a.t || a.dt == 0
    then none
    else (let r = pos_part (tx -ℤ a.t) / a.dt in if ltb r a.n then some r else none)

unfoldable pub open_range_index_of : FixedDt → UtcTime → Option ℕ
unfolding time_at index_of
open_range_index_of a tx =
    if ltb 0 a.n && leb_ℤ (time_at a a.n) tx then some (pred a.n) else index_of a tx

unfoldable pub time_shift : FixedDt → UtcTimespan → FixedDt
time_shift a d = record a { t = a.t +ℤ d }
