-- ===== src/TimeAxis/Extend/CalendarAxes.antt =====
-- `extend` of core/time_axis.h for two axes of calendar steps.
use shyft.Prelude.{
  ℕ, zero, suc, ◌+◌, ◌-◌, Bool, not, ◌&&◌, ◌||◌, Option, none, some, List, [], ◌∷◌, ◌++◌,
}
use shyft.Prelude.Tests.{ltb, ◌==◌, if◌then◌else◌}
use shyft.Prelude.Int.{pos, ltb_ℤ, eqb_ℤ}
use shyft.Prelude.Outcome.{Outcome, ok, ◌>>=◌}
use shyft.Utc.{UtcTime, UtcPeriod, period}
use shyft.Calendar.Zone.{TzInfo}
use shyft.Calendar.Steps.{add, diff_units}
use shyft.TimeAxis.Calendar
use shyft.TimeAxis.Calendar.{CalendarDt, to_size}
use shyft.TimeAxis.Generic.{GenericDt, of_calendar}
use shyft.TimeAxis.Extend.Slices.{of_points}

unfoldable pub extend_empty : CalendarDt → UtcTime → Outcome GenericDt
extend_empty b split_at = Calendar.total_period b >>= λ pb.
    Calendar.index_of b split_at >>= λ found. elim found [
      | none ↦
          if ltb_ℤ split_at pb.start
          then ok (of_calendar b)
          else ok (of_calendar Calendar.null_range)
      | some split_index ↦ Calendar.period_at b split_index >>= λ split_p. ok (
          of_calendar (record {
            cal = b.cal;
            t = split_p.start;
            dt = b.dt;
            n = Calendar.size b - split_index;
          }))
    ]

unfoldable pub extend_by_empty : CalendarDt → UtcTime → Outcome GenericDt
extend_by_empty a split_at = Calendar.total_period a >>= λ pa.
    Calendar.index_of a split_at >>= λ found. elim found [
      | none ↦
          if ltb_ℤ split_at pa.start
          then ok (of_calendar Calendar.null_range)
          else ok (of_calendar a)
      | some split_index ↦
          ok (of_calendar (record { cal = a.cal; t = pa.start; dt = a.dt; n = split_index }))
    ]

abbrev pub is_empty : UtcPeriod → Bool
is_empty p = eqb_ℤ p.start p.end

-- `split_a_idx` and `split_b_idx`: the index found, or the first one, or `last`.
unfoldable pub split_ix : Option ℕ → UtcTime → UtcPeriod → ℕ → ℕ
split_ix found split_at p last = elim found [
  | none ↦ if ltb_ℤ split_at p.start then 0 else last
  | some ix ↦ ix
]

-- The start of the period at the split, or the end of the axis.
unfoldable pub split_time : CalendarDt → UtcTime → UtcPeriod → ℕ → Outcome UtcTime
split_time a split_at p ix =
    if ltb_ℤ split_at p.end then (Calendar.period_at a ix >>= λ q. ok q.start) else ok p.end

-- The times `i`, ..., `i + n - 1` steps after `t`.
unfoldable pub steps_of : TzInfo → UtcTime → ℕ → ℕ → ℕ → Outcome (List UtcTime)
steps_of cal t dt i zero = ok []
steps_of cal t dt i (suc n) =
    add cal t (pos dt) (pos i) >>= λ x. steps_of cal t dt (i + 1) n >>= λ rest. ok (x ∷ rest)

unfoldable pub a_points : CalendarDt → UtcPeriod → ℕ → Outcome (List UtcTime)
a_points a pa split_a_idx =
    if ltb 0 split_a_idx then steps_of a.cal pa.start a.dt 0 (split_a_idx + 1) else ok []

unfoldable pub b_points :
    CalendarDt → UtcPeriod → UtcPeriod → UtcPeriod → ℕ → Outcome (List UtcTime)
b_points b pb span_a span_b split_b_idx =
    if is_empty span_b
    then ok []
    else ((if is_empty span_a || ltb_ℤ span_a.end span_b.start
          then steps_of b.cal pb.start b.dt split_b_idx 1
          else ok [])
        >>= λ first.
            steps_of b.cal pb.start b.dt (split_b_idx + 1) (Calendar.size b - split_b_idx)
            >>= λ rest. ok (first ++ rest))

unfoldable pub extend_unaligned :
    CalendarDt
    → CalendarDt
    → UtcPeriod
    → UtcPeriod
    → UtcPeriod
    → UtcPeriod
    → ℕ
    → ℕ
    → Outcome GenericDt
extend_unaligned a b pa pb span_a span_b split_a_idx split_b_idx =
    a_points a pa split_a_idx >>= λ of_a.
    b_points b pb span_a span_b split_b_idx >>= λ of_b. of_points (of_a ++ of_b)

-- One axis of the steps of `a`, where `n` of them lead from the start of `a` to the end of `b`.
unfoldable pub extend_aligned :
    CalendarDt → CalendarDt → UtcPeriod → UtcPeriod → ℕ → ℕ → ℕ → GenericDt
extend_aligned a b span_a span_b split_a_idx split_b_idx n =
    if not (is_empty span_a)
    then of_calendar (record {
      cal = a.cal;
      t = span_a.start;
      dt = a.dt;
      n = if not (is_empty span_b) then n else split_a_idx;
    })
    else of_calendar
        (record { cal = a.cal; t = span_b.start; dt = a.dt; n = Calendar.size b - split_b_idx })

-- Where both have periods; at least one of the spans is not empty.
unfoldable pub extend_spans :
    Bool
    → CalendarDt
    → CalendarDt
    → UtcPeriod
    → UtcPeriod
    → UtcPeriod
    → UtcPeriod
    → ℕ
    → ℕ
    → Outcome GenericDt
extend_spans same_name a b pa pb span_a span_b split_a_idx split_b_idx =
    let unaligned = extend_unaligned a b pa pb span_a span_b split_a_idx split_b_idx in
    if same_name
      && a.dt == b.dt
      && (is_empty span_a || is_empty span_b || eqb_ℤ span_a.end span_b.start)
    then (diff_units a.cal pa.start pb.end (pos a.dt) >>= λ (n, remainder).
        if eqb_ℤ remainder (pos 0)
        then ok (extend_aligned a b span_a span_b split_a_idx split_b_idx (to_size n))
        else unaligned)
    else unaligned

unfoldable pub extend_calendar : Bool → CalendarDt → CalendarDt → UtcTime → Outcome GenericDt
extend_calendar same_name a b split_at =
    if Calendar.size a == 0
    then (if Calendar.size b == 0
        then ok (of_calendar Calendar.null_range)
        else extend_empty b split_at)
    else if Calendar.size b == 0
    then extend_by_empty a split_at
    else (Calendar.total_period a >>= λ pa. Calendar.total_period b >>= λ pb.
        Calendar.index_of a split_at >>= λ in_a.
        let split_a_idx = split_ix in_a split_at pa (Calendar.size a) in
        Calendar.index_of b split_at >>= λ in_b.
        let split_b_idx = split_ix in_b split_at pb (Calendar.size b - 1) in
        split_time a split_at pa split_a_idx >>= λ end_a.
        split_time b split_at pb split_b_idx >>= λ start_b.
        if eqb_ℤ pa.start end_a && eqb_ℤ start_b pb.end
        then ok (of_calendar Calendar.null_range)
        else extend_spans same_name a b pa pb (period pa.start end_a) (period start_b pb.end)
            split_a_idx split_b_idx)
