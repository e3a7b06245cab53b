-- ===== src/TimeAxis/Sparse.antt =====
-- `combine` of core/time_axis.h where one of the axes may have holes: the periods in which both have
-- one. The template takes any axes; the record `Axis` is what it asks of them. `none` is
-- `std::string::npos`.
pub mod Ends
use shyft.Prelude.{
  ℕ, zero, suc, ◌+◌, ◌-◌, Bool, true, false, not, ◌&&◌, ◌||◌, Option, none, some, List, [], ◌∷◌,
}
use shyft.Prelude.Tests.{ltb, ◌==◌, if◌then◌else◌}
use shyft.Prelude.Int.{pos, ltb_ℤ, eqb_ℤ, min_ℤ, max_ℤ}
use shyft.Prelude.Outcome.{Outcome, ok, throw, undefined, runtime_error, ◌>>=◌}
use shyft.Utc.{
  UtcTime, UtcPeriod, period, timespan, overlaps, period_eq, contains_period, intersection,
}
use shyft.TimeAxis.Generic
use shyft.TimeAxis.Generic.{GenericDt}
use shyft.TimeAxis.Periods
use shyft.TimeAxis.Periods.{PeriodList}
use shyft.TimeAxis.SubPeriods
use shyft.TimeAxis.SubPeriods.{CalendarDtP}
use shyft.TimeAxis.Combine.{past_ix}

pub record Axis : Type 0 where
  pub size : ℕ
  pub total_period : Outcome UtcPeriod
  pub period_at : ℕ → Outcome UtcPeriod
  pub open_range_index_of : UtcTime → Outcome (Option ℕ)

abbrev pub of_list : PeriodList → Axis
of_list a = record {
  size = Periods.size a;
  total_period = ok (Periods.total_period a);
  period_at = Periods.period_at a;
  open_range_index_of = λ t. Periods.open_range_index_of a t none;
}

abbrev pub of_sub_periods : CalendarDtP → Axis
of_sub_periods a = record {
  size = SubPeriods.size a;
  total_period = SubPeriods.total_period a;
  period_at = SubPeriods.period_at a;
  open_range_index_of = SubPeriods.open_range_index_of a;
}

abbrev pub of_dense : GenericDt → Axis
of_dense a = record {
  size = Generic.size a;
  total_period = Generic.total_period a;
  period_at = Generic.period_at a;
  open_range_index_of = λ t. Generic.open_range_index_of a t none;
}

-- What one round of the loop pushes, if anything, and whether it goes on to the next period of each.
pub record Round : Type 0 where
  pub push : Option UtcPeriod
  pub next_a : Bool
  pub next_b : Bool

abbrev pub round : Option UtcPeriod → Bool → Bool → Round
round push next_a next_b = record { push = push; next_a = next_a; next_b = next_b }

abbrev pub is_empty : UtcPeriod → Bool
is_empty p = eqb_ℤ (timespan p) (pos 0)

-- The periods of both axes meet, in `p_i`.
unfoldable pub common_round : UtcPeriod → UtcPeriod → UtcPeriod → Round
common_round p_ia p_ib p_i =
    if period_eq p_ia p_ib
    then round (some p_ia) true true
    else if contains_period p_ib p_ia
    then round (some p_ia) true false
    else if contains_period p_ia p_ib
    then round (some p_ib) false true
    else if ltb_ℤ p_ia.start p_ib.start
    then round (some p_i) true false
    else if ltb_ℤ p_ib.start p_ia.start
    then round (some p_i) false true
    else round none false false

unfoldable pub make_round : UtcPeriod → UtcPeriod → Round
make_round p_ia p_ib =
    if is_empty p_ia
    then round none true false
    else if is_empty p_ib
    then round none false true
    else if is_empty (intersection p_ia p_ib)
    then (if ltb_ℤ p_ia.start p_ib.start
        then round none true false
        else if ltb_ℤ p_ib.start p_ia.start
        then round none false true
        else round none true true)
    else common_round p_ia p_ib (intersection p_ia p_ib)

abbrev pub step : Bool → ℕ → ℕ
step next i = if next then suc i else i

abbrev pub pushed : Option UtcPeriod → List UtcPeriod → List UtcPeriod
pushed none rest = rest
pushed (some q) rest = q ∷ rest

-- The loop from the indices `ia` and `ib` on. A round goes on to the next period of one axis at least,
-- so the number of periods that are left is fuel enough.
unfoldable pub combine_loop : ℕ → Axis → Axis → UtcPeriod → ℕ → ℕ → ℕ → ℕ → Outcome (List UtcPeriod)
combine_loop zero a b tp ia ea ib eb = if ltb ia ea && ltb ib eb then undefined else ok []
combine_loop (suc fuel) a b tp ia ea ib eb =
    let go_on =
      (a.period_at ia >>= λ q. b.period_at ib >>= λ r.
      let now = make_round (intersection q tp) (intersection r tp) in
      combine_loop fuel a b tp (step now.next_a ia) ea (step now.next_b ib) eb >>= λ rest.
      ok (pushed now.push rest)) in
    if ltb ia ea && ltb ib eb then go_on else ok []

unfoldable pub periods_equal : ℕ → ℕ → Axis → Axis → Outcome Bool
periods_equal zero i a b = ok true
periods_equal (suc n) i a b =
    let rest = periods_equal n (suc i) a b in
    a.period_at i >>= λ q. b.period_at i >>= λ r. if period_eq q r then rest else ok false

-- The `n` periods from index `i` on, for `period_list::convert`.
unfoldable pub periods_from : Axis → ℕ → ℕ → Outcome (List UtcPeriod)
periods_from a i zero = ok []
periods_from a i (suc n) = a.period_at i >>= λ q. periods_from a (suc i) n >>= λ rest. ok (q ∷ rest)

-- An index that must be there.
abbrev pub need : Option ℕ → Outcome ℕ
need none = throw runtime_error
need (some ix) = ok ix

unfoldable pub combine_common : Axis → Axis → UtcPeriod → Outcome PeriodList
combine_common a b tp = a.open_range_index_of tp.start >>= λ in_a.
    b.open_range_index_of tp.start >>= λ in_b. need in_a >>= λ ia. need in_b >>= λ ib.
    a.open_range_index_of tp.end >>= λ last_a. b.open_range_index_of tp.end >>= λ last_b.
    let ea = past_ix last_a in
    let eb = past_ix last_b in
    combine_loop (ea - ia + (eb - ib)) a b tp ia ea ib eb >>= λ p. ok (record { p = p })

unfoldable pub combine_sparse : Axis → Axis → Outcome PeriodList
combine_sparse a b = a.total_period >>= λ pa. b.total_period >>= λ pb.
    if not (overlaps pa pb) || a.size == 0 || b.size == 0
    then ok Periods.null_range
    else ((if period_eq pa pb && a.size == b.size then periods_equal a.size 0 a b else ok false)
        >>= λ all_equal.
            if all_equal
            then (periods_from a 0 a.size >>= λ p. ok (record { p = p }))
            else combine_common a b (period (max_ℤ pa.start pb.start) (min_ℤ pa.end pb.end)))
