-- ===== src/Tests/Periods.antt =====
-- Period lists and axes with sub-periods at concrete inputs.
use shyft.Prelude.{◌≡◌, ◌↔◌, refl, arith, true, false, none, some, [], ◌∷◌}
use shyft.Prelude.Lists.{get_elem?}
use shyft.Prelude.Int.{pos}
use shyft.Prelude.Outcome.{ok, undefined}
use shyft.Utc.{UtcPeriod, period, contains}
use shyft.Calendar.Steps.{week_length}
use shyft.TimeAxis.Calendar
use shyft.TimeAxis.Point.{lower_bound}
use shyft.TimeAxis.Periods.{
  PeriodList, back, read, next_after, last_started, binary_search, search_from, index_inside,
  index_of, total_period, size, open_range_index_of,
}
use shyft.TimeAxis.Periods.Index.{index_of-contains_iff}
use shyft.TimeAxis.Periods.Hint.{index_of-later_hint}
use shyft.TimeAxis.SubPeriods
use shyft.TimeAxis.SubPeriods.{CalendarDtP}
use shyft.Tests.Calendar.{east}

abbrev shifts : PeriodList
shifts = record {
  p = period (pos 0) (pos 8) ∷ period (pos 10) (pos 18) ∷ period (pos 20) (pos 28) ∷ [];
}

-- 9 lies after the first period; with a hint at the second one, that is the answer.
found :
    (index_of shifts (pos 12) none true ≡ ok (some 1))
    × (index_of shifts (pos 9) none true ≡ ok none)
    × (open_range_index_of shifts (pos 9) none ≡ ok (some 0))
    × (open_range_index_of shifts (pos 9) (some 1) ≡ ok (some 1))
unfolding index_of index_inside search_from binary_search last_started read next_after lower_bound
    back contains open_range_index_of total_period size
found = (refl, refl, refl, refl)

abbrev working_weeks : CalendarDtP
working_weeks = record { cta = record { cal = east; t = pos 0; dt = week_length; n = 4 }; p = [] }

-- An axis without sub-periods has periods, and none of them can be read.
no_sub_periods :
    (SubPeriods.size working_weeks ≡ 4)
    × (SubPeriods.period_at working_weeks 0 ≡ undefined)
    × (SubPeriods.time working_weeks 3 ≡ undefined)
unfolding SubPeriods.size SubPeriods.period_at SubPeriods.time Calendar.size
no_sub_periods = (refl, refl, refl)

index_of-contains_iff_example :
    (index_of shifts (pos 12) none true ≡ ok (some 1))
    ↔ ((q : UtcPeriod) × (get_elem? shifts.p 1 ≡ some q) × (contains q (pos 12) ≡ true))
index_of-contains_iff_example = index_of-contains_iff shifts (pos 12) 1 (omega arith)

index_of-later_hint_example : index_of shifts (pos 3) (some 2) false ≡ ok (some 2)
index_of-later_hint_example =
    index_of-later_hint shifts (pos 3) 2 (period (pos 0) (pos 8)) (period (pos 20) (pos 28))
      (omega arith) refl (omega arith) refl (omega arith)
