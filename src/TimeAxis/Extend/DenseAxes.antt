-- ===== src/TimeAxis/Extend/DenseAxes.antt =====
-- `extend` of core/time_axis.h for any two axes without holes, here each as a `generic_dt`.
use shyft.Prelude.{
  ℕ, zero, suc, ◌+◌, ◌-◌, Bool, ◌&&◌, ◌||◌, Option, none, some, List, [], ◌∷◌, ◌++◌,
}
use shyft.Prelude.Tests.{ltb, ◌==◌, if◌then◌else◌}
use shyft.Prelude.Int.{ltb_ℤ, leb_ℤ, eqb_ℤ}
use shyft.Prelude.Outcome.{Outcome, ok, ◌>>=◌}
use shyft.Utc.{UtcTime, UtcPeriod}
use shyft.TimeAxis.Point
use shyft.TimeAxis.Generic
use shyft.TimeAxis.Generic.{GenericDt, of_point}
use shyft.TimeAxis.Extend.Slices.{as_generic, of_points}

-- `a_end_idx` and `b_start_idx`: the index found, or that of the start or of the end.
unfoldable pub split_ix : Option ℕ → UtcTime → UtcPeriod → ℕ → ℕ
split_ix found split_at p size = elim found [
  | none ↦ if size == 0 || ltb_ℤ split_at p.start then 0 else size
  | some ix ↦ ix
]

-- The starts of the `n` periods from index `i` on.
unfoldable pub starts_of : GenericDt → ℕ → ℕ → Outcome (List UtcTime)
starts_of a i zero = ok []
starts_of a i (suc n) =
    Generic.period_at a i >>= λ p. starts_of a (i + 1) n >>= λ rest. ok (p.start ∷ rest)

-- The starts of `n` periods from index `i` on, and the end of the period before index `last`.
unfoldable pub bounds_of : GenericDt → ℕ → ℕ → ℕ → Outcome (List UtcTime)
bounds_of a i n last =
    starts_of a i n >>= λ starts. Generic.period_at a (last - 1) >>= λ p. ok (starts ++ p.end ∷ [])

unfoldable pub a_points : GenericDt → UtcTime → ℕ → Outcome (List UtcTime)
a_points a split_at a_end_idx =
    if ltb 0 (Generic.size a)
    then (Generic.period_at a 0 >>= λ p.
        if leb_ℤ p.end split_at then bounds_of a 0 a_end_idx a_end_idx else ok [])
    else ok []

-- Whether the first point of `b` is not the last one of `a`.
unfoldable pub starts_apart : UtcPeriod → UtcPeriod → UtcTime → Bool
starts_apart pa pb split_at =
    eqb_ℤ pa.start pa.end
    || ltb_ℤ pa.end pb.start
    || ltb_ℤ pa.end split_at
    || ltb_ℤ split_at pb.start

unfoldable pub b_points : GenericDt → UtcPeriod → UtcPeriod → UtcTime → ℕ → Outcome (List UtcTime)
b_points b pa pb split_at b_start_idx =
    if ltb 0 (Generic.size b) && ltb_ℤ pa.start pb.end && ltb_ℤ split_at pb.end
    then ((if starts_apart pa pb split_at then starts_of b b_start_idx 1 else ok []) >>= λ first.
        bounds_of b (b_start_idx + 1) (Generic.size b - (b_start_idx + 1)) (Generic.size b)
        >>= λ rest. ok (first ++ rest))
    else ok []

-- Where nothing is left of one of the axes.
unfoldable pub extend_empty : GenericDt → GenericDt → ℕ → ℕ → Outcome GenericDt
extend_empty a b a_end_idx b_start_idx =
    if a_end_idx == 0 && b_start_idx == Generic.size b
    then ok (of_point Point.null_range)
    else if b_start_idx == Generic.size b
    then (if a_end_idx == 0 then ok a else as_generic a 0 a_end_idx)
    else if b_start_idx == 0
    then ok b
    else as_generic b b_start_idx (Generic.size b - b_start_idx)

unfoldable pub extend_dense : GenericDt → GenericDt → UtcTime → Outcome GenericDt
extend_dense a b split_at = Generic.total_period a >>= λ pa. Generic.total_period b >>= λ pb.
    Generic.index_of a split_at none >>= λ in_a. Generic.index_of b split_at none >>= λ in_b.
    let a_end_idx = split_ix in_a split_at pa (Generic.size a) in
    let b_start_idx = split_ix in_b split_at pb (Generic.size b) in
    if a_end_idx == 0 || b_start_idx == Generic.size b
    then extend_empty a b a_end_idx b_start_idx
    else (a_points a split_at a_end_idx >>= λ of_a.
        b_points b pa pb split_at b_start_idx >>= λ of_b. of_points (of_a ++ of_b))
