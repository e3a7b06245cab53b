-- ===== src/TimeAxis/Extend/Slices.antt =====
-- `extend_helper` of core/time_axis.h: a part of an axis, as a `generic_dt`.
use shyft.Prelude.{ℕ, zero, suc, ◌+◌, ◌*◌, ◌≤◌, ◌≡◌, refl, arith, false, none, List, [], ◌∷◌}
use shyft.Prelude.Tests.{ltb, ◌==◌, if◌then◌else◌}
use shyft.Prelude.Lists.{length, take, drop, get_elem?}
use shyft.Prelude.Int.{pos, ◌+ℤ◌}
use shyft.Prelude.Outcome.{Outcome, ok, undefined, ◌>>=◌}
use shyft.Utc.{UtcTime}
use shyft.Calendar.Steps.{add}
use shyft.TimeAxis.Fixed.{FixedDt}
use shyft.TimeAxis.Calendar.{CalendarDt}
use shyft.TimeAxis.Point.{PointDt, make, make_all, null_range, read}
use shyft.TimeAxis.Generic.{GenericDt, GenericType, of_fixed, of_calendar, of_point}

unfoldable pub fixed_as_generic : FixedDt → ℕ → ℕ → GenericDt
fixed_as_generic base skip steps =
    of_fixed (record { t = base.t +ℤ pos (skip * base.dt); dt = base.dt; n = steps })

unfoldable pub calendar_as_generic : CalendarDt → ℕ → ℕ → Outcome GenericDt
calendar_as_generic base skip steps = add base.cal base.t (pos base.dt) (pos skip) >>= λ t.
    ok (of_calendar (record { cal = base.cal; t = t; dt = base.dt; n = steps }))

-- An iterator may not be advanced past the end.
unfoldable pub point_as_generic : PointDt → ℕ → ℕ → Outcome GenericDt
point_as_generic base skip steps =
    if ltb (length base.t) (skip + steps)
    then undefined
    else ((if skip + steps == length base.t then ok base.t_end else read base.t (skip + steps + 1))
        >>= λ end_time. make (take steps (drop skip base.t)) end_time >>= λ p. ok (of_point p))

unfoldable pub as_generic : GenericDt → ℕ → ℕ → Outcome GenericDt
as_generic base skip steps = elim base.gt [
  | GenericType.fixed ↦ ok (fixed_as_generic base.f skip steps)
  | GenericType.calendar ↦ calendar_as_generic base.c skip steps
  | GenericType.point ↦ point_as_generic base.p skip steps
]

-- `points`, as an axis if there are two at least.
unfoldable pub of_points : List UtcTime → Outcome GenericDt
of_points points =
    if ltb (length points) 2
    then ok (of_point null_range)
    else (make_all points >>= λ p. ok (of_point p))

get_elem?-past {ℓ} : {A : Type ℓ} (l : List A) (i : ℕ) → length l ≤ i → get_elem? l i ≡ none
get_elem?-past [] i h = refl
get_elem?-past (x ∷ l) zero h = absurd (omega arith)
get_elem?-past (x ∷ l) (suc i) h = get_elem?-past l i (omega arith)

-- The part of a point axis up to its last point but one is cut off at a read past the end of the
-- vector.
pub point_as_generic-past_end :
    (base : PointDt) (skip steps : ℕ)
    → skip + steps + 1 ≡ length base.t
    → point_as_generic base skip steps ≡ undefined
unfolding point_as_generic read
point_as_generic-past_end base skip steps h =
    let inside : ltb (length base.t) (skip + steps) ≡ false = ground arith in
    let not_all : (skip + steps == length base.t) ≡ false = ground arith in
    rw (inside, not_all, get_elem?-past base.t (skip + steps + 1) (omega arith), read) refl
