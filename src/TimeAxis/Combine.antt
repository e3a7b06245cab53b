-- ===== src/TimeAxis/Combine.antt =====
-- `combine` of core/time_axis.h: the axis of the periods in which two axes overlap. For two fixed axes
-- it is one of fixed steps; for two other axes without holes, here each as a `generic_dt`, it has the
-- points of both. The times of a slice are read before they are merged: every one is read in any
-- case. An index that is `none` is `std::string::npos`, the largest number of 64 bits.
pub mod Slices
pub mod Points
use shyft.Prelude.{
  ℕ, zero, suc, ◌+◌, ◌-◌, ◌/◌, ◌%◌, ◌^◌, Bool, true, false, not, ◌&&◌, ◌||◌, Option, none, some,
  List, [], ◌∷◌,
}
use shyft.Prelude.Tests.{ltb, ◌==◌, if◌then◌else◌}
use shyft.Prelude.Int.{ℤ, pos, pos_part, ◌-ℤ◌, ltb_ℤ, eqb_ℤ, min_ℤ, max_ℤ}
use shyft.Prelude.Outcome.{Outcome, ok, throw, undefined, runtime_error, ◌>>=◌}
use shyft.Utc.{UtcTime, UtcPeriod, overlaps, period_eq}
use shyft.TimeAxis.Fixed
use shyft.TimeAxis.Fixed.{FixedDt}
use shyft.TimeAxis.Point
use shyft.TimeAxis.Point.{PointDt, point_dt, back, pop_back}
use shyft.TimeAxis.Generic
use shyft.TimeAxis.Generic.{GenericDt, GenericType, of_fixed, of_point}

-- The steps of length `dt` from the later start to the earlier end.
unfoldable pub fixed_over : UtcPeriod → UtcPeriod → ℕ → FixedDt
fixed_over pa pb dt =
    let t0 = max_ℤ pa.start pb.start in
    record { t = t0; dt = dt; n = pos_part (min_ℤ pa.end pb.end -ℤ t0) / dt }

-- A step of length 0 has no remainder.
unfoldable pub needs_align : ℕ → ℕ → Outcome (Unit {0})
needs_align long short =
    if short == 0 then undefined else if long % short == 0 then ok tt else throw runtime_error

unfoldable pub combine_fixed : FixedDt → FixedDt → Outcome FixedDt
combine_fixed a b =
    let pa = Fixed.total_period a in
    let pb = Fixed.total_period b in
    if not (overlaps pa pb) || Fixed.size a == 0 || Fixed.size b == 0
    then ok Fixed.null_range
    else if a.dt == b.dt
    then (if eqb_ℤ a.t b.t && a.n == b.n then ok a else ok (fixed_over pa pb a.dt))
    else if ltb b.dt a.dt
    then (needs_align a.dt b.dt >>= λ _. ok (fixed_over pa pb b.dt))
    else (needs_align b.dt a.dt >>= λ _. ok (fixed_over pa pb a.dt))

-- Whether the `n` periods from index `i` on are the same.
unfoldable pub periods_equal : ℕ → ℕ → GenericDt → GenericDt → Outcome Bool
periods_equal zero i a b = ok true
periods_equal (suc n) i a b =
    let rest = periods_equal n (i + 1) a b in
    Generic.period_at a i >>= λ p.
    Generic.period_at b i >>= λ q. if period_eq p q then rest else ok false

-- The times of the `n` periods from index `i` on.
unfoldable pub times_of : GenericDt → ℕ → ℕ → Outcome (List UtcTime)
times_of a i zero = ok []
times_of a i (suc n) = Generic.time a i >>= λ t. times_of a (i + 1) n >>= λ rest. ok (t ∷ rest)

-- The loops that fill up what is left.
unfoldable pub before : UtcTime → List UtcTime → List UtcTime
before te [] = []
before te (t ∷ l) = let rest = before te l in if ltb_ℤ t te then t ∷ rest else rest

-- The loop while `a` has the time `x`, with `xs` after it: the times of `b` up to it, then `next`, the
-- loop for the rest of `a` from there.
unfoldable pub combine_from :
    UtcTime → UtcTime → List UtcTime → (List UtcTime → List UtcTime) → List UtcTime → List UtcTime
combine_from te x xs next [] = before te (x ∷ xs)
combine_from te x xs next (y ∷ ys) =
    let later = combine_from te x xs next ys in
    if eqb_ℤ x y then x ∷ next ys else if ltb_ℤ x y then x ∷ next (y ∷ ys) else y ∷ later

unfoldable pub combine_times : UtcTime → List UtcTime → List UtcTime → List UtcTime
combine_times te [] ys = before te ys
combine_times te (x ∷ xs) ys = combine_from te x xs (combine_times te xs) ys

-- The end of the axis is left as its last point.
unfoldable pub with_end : UtcTime → List UtcTime → Outcome GenericDt
with_end te t = elim (back t) [
  | none ↦ undefined
  | some last ↦ ok (of_point (point_dt (if eqb_ℤ last te then pop_back t else t) te))
]

unfoldable pub combine_slices : UtcTime → List UtcTime → List UtcTime → Outcome GenericDt
combine_slices te xs ys = with_end te (combine_times te xs ys)

abbrev pub first_ix : Option ℕ → ℕ
first_ix none = 2 ^ 64 - 1
first_ix (some ix) = ix

-- One past the index.
abbrev pub past_ix : Option ℕ → ℕ
past_ix none = 0
past_ix (some ix) = ix + 1

-- The times of an axis from the period of `t0` to that of `te`.
unfoldable pub slice : GenericDt → UtcTime → UtcTime → Outcome (List UtcTime)
slice a t0 te = Generic.open_range_index_of a t0 none >>= λ first.
    Generic.open_range_index_of a te none >>= λ last.
    times_of a (first_ix first) (past_ix last - first_ix first)

unfoldable pub combine_points : GenericDt → GenericDt → UtcPeriod → UtcPeriod → Outcome GenericDt
combine_points a b pa pb =
    let t0 = max_ℤ pa.start pb.start in
    let te = min_ℤ pa.end pb.end in
    slice a t0 te >>= λ xs. slice b t0 te >>= λ ys. combine_slices te xs ys

-- For two axes without holes.
unfoldable pub combine_dense : GenericDt → GenericDt → Outcome GenericDt
combine_dense a b = Generic.total_period a >>= λ pa. Generic.total_period b >>= λ pb.
    if not (overlaps pa pb) || Generic.size a == 0 || Generic.size b == 0
    then ok (of_point Point.null_range)
    else ((if period_eq pa pb && Generic.size a == Generic.size b
          then periods_equal (Generic.size a) 0 a b
          else ok false)
        >>= λ all_equal. if all_equal then ok a else combine_points a b pa pb)

-- For two generic axes, by their types.
unfoldable pub combine : GenericDt → GenericDt → Outcome GenericDt
combine a b = elim a.gt [
  | GenericType.fixed ↦ elim b.gt [
    | GenericType.fixed ↦ combine_fixed a.f b.f >>= λ r. ok (of_fixed r)
    | GenericType.calendar ↦ combine_dense a b
    | GenericType.point ↦ combine_dense a b
  ]
  | GenericType.calendar ↦ combine_dense a b
  | GenericType.point ↦ combine_dense a b
]
