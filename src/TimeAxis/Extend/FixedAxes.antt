-- ===== src/TimeAxis/Extend/FixedAxes.antt =====
-- `extend` of core/time_axis.h for two fixed axes.
pub mod Grid
pub mod Aligned
pub mod Unaligned
use shyft.Prelude.{
  ℕ, zero, suc, ◌+◌, ◌-◌, ◌*◌, ◌/◌, Bool, not, ◌&&◌, ◌||◌, Option, none, some, List, [], ◌∷◌, ◌++◌,
}
use shyft.Prelude.Tests.{ltb, ◌==◌, if◌then◌else◌}
use shyft.Prelude.Int.{ℤ, pos, pos_part, ◌+ℤ◌, ◌-ℤ◌, ◌*ℤ◌, ltb_ℤ, leb_ℤ, eqb_ℤ, min_ℤ, max_ℤ, div_ℤ}
use shyft.Prelude.Outcome.{Outcome, ok, undefined, ◌>>=◌}
use shyft.Utc.{UtcTime, UtcPeriod, period}
use shyft.TimeAxis.Fixed
use shyft.TimeAxis.Fixed.{FixedDt}
use shyft.TimeAxis.Generic.{GenericDt, of_fixed}
use shyft.TimeAxis.Extend.Slices.{of_points}

-- The last time not after `t` on the grid of steps from `start` on. The division truncates.
unfoldable pub on_grid : UtcTime → UtcTime → ℕ → UtcTime
on_grid start t dt = start +ℤ div_ℤ (t -ℤ start) dt *ℤ pos dt

-- Where one axis is empty.
unfoldable pub extend_empty : FixedDt → UtcTime → Outcome GenericDt
extend_empty b split_at = elim (Fixed.index_of b split_at) [
  | none ↦
      if ltb_ℤ split_at (Fixed.total_period b).start
      then ok (of_fixed b)
      else ok (of_fixed Fixed.null_range)
  | some split_index ↦ Fixed.period_at b split_index >>= λ split_p.
      ok (of_fixed (record { t = split_p.start; dt = b.dt; n = Fixed.size b - split_index }))
]

unfoldable pub extend_by_empty : FixedDt → UtcTime → Outcome GenericDt
extend_by_empty a split_at = elim (Fixed.index_of a split_at) [
  | none ↦
      if ltb_ℤ split_at (Fixed.total_period a).start
      then ok (of_fixed Fixed.null_range)
      else ok (of_fixed a)
  | some split_index ↦
      ok (of_fixed (record { t = (Fixed.total_period a).start; dt = a.dt; n = split_index }))
]

abbrev pub is_empty : UtcPeriod → Bool
is_empty p = eqb_ℤ p.start p.end

-- The fixed axis with steps `dt` over a span.
abbrev pub over : UtcTime → UtcTime → ℕ → GenericDt
over start end dt = of_fixed (record { t = start; dt = dt; n = pos_part (end -ℤ start) / dt })

unfoldable pub extend_aligned : ℕ → UtcPeriod → UtcPeriod → GenericDt
extend_aligned dt sa sb =
    if not (is_empty sa)
    then (if not (is_empty sb) then over sa.start sb.end dt else over sa.start sa.end dt)
    else if not (is_empty sb)
    then over sb.start sb.end dt
    else of_fixed Fixed.null_range

-- `n` times from `t` on.
unfoldable pub steps_from : ℕ → UtcTime → ℕ → List UtcTime
steps_from zero t dt = []
steps_from (suc n) t dt = t ∷ steps_from n (t +ℤ pos dt) dt

-- The steps that fit in a span, which the loops count.
abbrev pub rounds : UtcPeriod → ℕ → ℕ
rounds s dt = pos_part (s.end -ℤ s.start) / dt

unfoldable pub extend_unaligned : ℕ → ℕ → UtcPeriod → UtcPeriod → Outcome GenericDt
extend_unaligned a_dt b_dt sa sb = of_points (
    (if not (is_empty sa) then steps_from (suc (rounds sa a_dt)) sa.start a_dt else [])
    ++ (if not (is_empty sb)
        then (if not (is_empty sa) && ltb_ℤ sa.end sb.start then sb.start ∷ [] else [])
          ++ steps_from (rounds sb b_dt) (sb.start +ℤ pos b_dt) b_dt
        else []))

-- The spans that are left of the two axes.
unfoldable pub span_a : FixedDt → UtcTime → UtcPeriod
span_a a split_at =
    let pa = Fixed.total_period a in
    period pa.start (min_ℤ (max_ℤ (on_grid pa.start split_at a.dt) pa.start) pa.end)

unfoldable pub span_b : FixedDt → UtcTime → UtcPeriod
span_b b split_at =
    let pb = Fixed.total_period b in
    period (max_ℤ (min_ℤ (on_grid pb.start split_at b.dt) pb.end) pb.start) pb.end

unfoldable pub is_aligned : FixedDt → FixedDt → UtcPeriod → UtcPeriod → Bool
is_aligned a b sa sb =
    a.dt == b.dt
    && eqb_ℤ (Fixed.total_period a).start
        (on_grid (Fixed.total_period b).start (Fixed.total_period a).start b.dt)
    && (is_empty sa || is_empty sb || eqb_ℤ sa.end sb.start)

-- A division by 0 is undefined.
unfoldable pub extend_fixed : FixedDt → FixedDt → UtcTime → Outcome GenericDt
extend_fixed a b split_at =
    if Fixed.size a == 0
    then (if Fixed.size b == 0 then ok (of_fixed Fixed.null_range) else extend_empty b split_at)
    else if Fixed.size b == 0
    then extend_by_empty a split_at
    else if a.dt == 0 || b.dt == 0
    then undefined
    else (let sa = span_a a split_at in
        let sb = span_b b split_at in
        if is_aligned a b sa sb
        then ok (extend_aligned a.dt sa sb)
        else extend_unaligned a.dt b.dt sa sb)
