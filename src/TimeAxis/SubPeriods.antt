-- ===== src/TimeAxis/SubPeriods.antt =====
-- `calendar_dt_p` of core/time_axis.h: the periods of a calendar axis, each with the same sub-periods,
-- given as times from its start. `none` stands for `std::string::npos`.
use Prim.Native.Nat.{pred}
use shyft.Prelude.{
  ℕ, ◌+◌, ◌-◌, ◌*◌, ◌/◌, ◌%◌, ◌^◌, Bool, false, not, ◌&&◌, ◌||◌, Option, none, some, List, [], ◌∷◌,
}
use shyft.Prelude.Tests.{ltb, ◌==◌, if◌then◌else◌}
use shyft.Prelude.Lists.{length}
use shyft.Prelude.Int.{pos, ltb_ℤ, leb_ℤ}
use shyft.Prelude.Outcome.{Outcome, ok, throw, undefined, out_of_range, ◌>>=◌}
use shyft.Utc.{UtcTime, UtcPeriod, period, contains}
use shyft.Calendar.Zone.{TzInfo}
use shyft.Calendar.Steps.{add}
use shyft.TimeAxis.Calendar
use shyft.TimeAxis.Calendar.{CalendarDt, calendar_eq}
use shyft.TimeAxis.Periods.{read, same_periods}

pub record CalendarDtP : Type 0 where
  pub cta : CalendarDt
  pub p : List UtcPeriod

-- `same_calendar` as for `calendar_dt`.
unfoldable pub calendar_p_eq : Bool → CalendarDtP → CalendarDtP → Bool
calendar_p_eq same_calendar a b = same_periods a.p b.p && calendar_eq same_calendar a.cta b.cta

unfoldable pub size : CalendarDtP → ℕ
size a = Calendar.size a.cta * (if length a.p == 0 then 1 else length a.p)

-- A sub-period from the start `t0` of a period on.
unfoldable pub sub_period : TzInfo → UtcTime → UtcPeriod → Outcome UtcPeriod
sub_period cal t0 q = add cal t0 q.start (pos 1) >>= λ start.
    add cal t0 q.end (pos 1) >>= λ end. ok (period start end)

-- The index is divided by the number of sub-periods, which is undefined if there are none.
unfoldable pub period_at : CalendarDtP → ℕ → Outcome UtcPeriod
period_at a i =
    if ltb i (size a)
    then (if length a.p == 0
        then undefined
        else (let main_ix = i / length a.p in
            Calendar.period_at a.cta main_ix >>= λ pi.
            read a.p (i - main_ix * length a.p) >>= λ q. sub_period a.cta.cal pi.start q))
    else throw out_of_range

unfoldable pub total_period : CalendarDtP → Outcome UtcPeriod
total_period a =
    if length a.p == 0 || Calendar.size a.cta == 0
    then Calendar.total_period a.cta
    else (period_at a 0 >>= λ first.
        period_at a (pred (size a)) >>= λ last. ok (period first.start last.end))

unfoldable pub time : CalendarDtP → ℕ → Outcome UtcTime
time a i = period_at a i >>= λ q. ok q.start

-- The index of the last sub-period but one, with the wrap-around of `size_t` before the first.
abbrev pub ix_before : ℕ → ℕ → ℕ
ix_before first i = (first + i + (2 ^ 64 - 1)) % 2 ^ 64

-- The loop over the sub-periods from number `i` on, of the period with the number `main_ix`, whose
-- first sub-period has the index `first`.
unfoldable pub sub_index_of :
    TzInfo → UtcTime → UtcTime → Bool → ℕ → ℕ → ℕ → List UtcPeriod → Outcome (Option ℕ)
sub_index_of cal t0 tx period_containment main_ix first i [] = ok none
sub_index_of cal t0 tx period_containment main_ix first i (q ∷ p) =
    let rest = sub_index_of cal t0 tx period_containment main_ix first (i + 1) p in
    sub_period cal t0 q >>= λ pi.
    if contains pi tx
    then ok (some (first + i))
    else if not period_containment && ltb_ℤ tx pi.start
    then ok (some (if ltb 0 i || ltb 0 main_ix then ix_before first i else first))
    else if not period_containment && length p == 0
    then ok (some (first + i))
    else rest

-- `cta.time(npos)` throws.
unfoldable pub index_of : CalendarDtP → UtcTime → Bool → Outcome (Option ℕ)
index_of a tx period_containment = total_period a >>= λ tp.
    if not (contains tp tx)
    then ok none
    else (Calendar.index_of a.cta tx >>= λ found. if length a.p == 0 then ok found else elim found [
      | none ↦ throw out_of_range
      | some main_ix ↦ Calendar.time a.cta main_ix >>= λ t0.
          sub_index_of a.cta.cal t0 tx period_containment main_ix (length a.p * main_ix) 0 a.p
    ])

unfoldable pub open_range_index_of : CalendarDtP → UtcTime → Outcome (Option ℕ)
open_range_index_of a tx =
    if ltb 0 (size a)
    then (total_period a >>= λ tp.
        if leb_ℤ tp.end tx then ok (some (pred (size a))) else index_of a tx false)
    else index_of a tx false
