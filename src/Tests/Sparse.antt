-- ===== src/Tests/Sparse.antt =====
-- The combination of axes with holes at concrete inputs.
use shyft.Prelude.{ℕ, zero, suc, ◌<◌, ◌≡◌, refl, arith, List, [], ◌∷◌}
use shyft.Prelude.Int.{pos, ◌-ℤ◌}
use shyft.Prelude.Outcome.{ok}
use shyft.Utc.{
  UtcPeriod, period, timespan, overlaps, period_eq, contains_period, intersection, valid, contains,
}
use shyft.TimeAxis.Point.{lower_bound}
use shyft.TimeAxis.Periods.{
  PeriodList, back, read, next_after, last_started, binary_search, search_from, index_inside,
  index_of, total_period, size, open_range_index_of, period_at,
}
use shyft.TimeAxis.Sparse.{
  of_list, common_round, make_round, combine_loop, periods_equal, periods_from, combine_common,
  combine_sparse,
}
use shyft.TimeAxis.Sparse.Ends.{combine_loop-returns}

abbrev odd_hours : PeriodList
odd_hours = record {
  p = period (pos 1) (pos 3) ∷ period (pos 5) (pos 7) ∷ period (pos 9) (pos 11) ∷ [];
}

abbrev even_hours : PeriodList
even_hours = record {
  p = period (pos 0) (pos 2) ∷ period (pos 4) (pos 10) ∷ period (pos 11) (pos 12) ∷ [];
}

-- The case at the end of `time_axis_combine` of test/time_axis_test.cpp, and a list combined with itself.
common_parts :
    (combine_sparse (of_list odd_hours) (of_list even_hours)
      ≡ ok (record {
        p = period (pos 1) (pos 2) ∷ period (pos 5) (pos 7) ∷ period (pos 9) (pos 10) ∷ [];
      }))
    × (combine_sparse (of_list odd_hours) (of_list odd_hours) ≡ ok odd_hours)
unfolding ◌-ℤ◌ combine_sparse combine_common combine_loop make_round common_round periods_equal
    periods_from period_at overlaps timespan period_eq contains_period intersection valid index_of
    index_inside search_from binary_search last_started read next_after lower_bound back contains
    open_range_index_of total_period size
common_parts = (refl, refl)

three_odd : (i : ℕ) → i < 3 → (q : UtcPeriod) × ((of_list odd_hours).period_at i ≡ ok q)
unfolding period_at
three_odd zero more = (period (pos 1) (pos 3), refl)
three_odd (suc zero) more = (period (pos 5) (pos 7), refl)
three_odd (suc (suc zero)) more = (period (pos 9) (pos 11), refl)
three_odd (suc (suc (suc i))) more = absurd (omega arith)

three_even : (i : ℕ) → i < 3 → (q : UtcPeriod) × ((of_list even_hours).period_at i ≡ ok q)
unfolding period_at
three_even zero more = (period (pos 0) (pos 2), refl)
three_even (suc zero) more = (period (pos 4) (pos 10), refl)
three_even (suc (suc zero)) more = (period (pos 11) (pos 12), refl)
three_even (suc (suc (suc i))) more = absurd (omega arith)

combine_loop-returns_example :
    (l : List UtcPeriod) × (combine_loop 6
        (of_list odd_hours)
        (of_list even_hours)
        (period (pos 1) (pos 11))
        0
        3
        0
        3
      ≡ ok l)
combine_loop-returns_example =
    combine_loop-returns 6 (of_list odd_hours) (of_list even_hours) (period (pos 1) (pos 11)) 0 3 0
      3 (omega arith) three_odd three_even (omega arith)
