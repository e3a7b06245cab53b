-- ===== src/TimeAxis/Merge/Axes.antt =====
-- `merge` of two point axes, as a whole.
use shyft.Prelude.{◌+◌, ◌<◌, ◌≡◌, refl, inl, inr, true, false, some, List, [], ◌∷◌, ◌++◌, arith}
use mathlib.Core.Path.{subst}
use shyft.Prelude.Tests.{Bool-cases, leb}
use shyft.Prelude.Lists.{All, All-map, All-append, length, length-append}
use shyft.Prelude.Int.{max_ℤ, ◌≤ℤ◌, ◌<ℤ◌, leb_ℤ, ltb_ℤ}
use shyft.Prelude.Outcome.{ok}
use shyft.Utc.{UtcTime, UtcPeriod, period}
use shyft.TimeAxis.Point
use shyft.TimeAxis.Point.{PointDt, point_dt, back, make}
use shyft.TimeAxis.Point.Sorted.{IsAxis}
use shyft.TimeAxis.Merge.{
  merge_point, can_merge_point, continuous_merge, compute_merge_info, merge_vectors, copy_range,
}
use shyft.TimeAxis.Merge.Points.{points_before, points_from, before_count-lem, first_after-lem}

points_from-early : (s : UtcTime) (t : List UtcTime) → All (λ x. x <ℤ s) t → points_from s t ≡ []
points_from-early s [] h = refl
points_from-early s (x ∷ t) h =
    let c : ltb_ℤ x s ≡ true = ground (arith, h.0) in rw c (points_from-early s t h.1)

points_before-All :
    (s e : UtcTime) (t : List UtcTime) → All (λ x. x <ℤ e) t → All (λ x. x <ℤ e) (points_before s t)
points_before-All s e [] h = tt
points_before-All s e (x ∷ t) h = elim (Bool-cases (ltb_ℤ x s)) [
  | inl c ↦ rw c (h.0, points_before-All s e t h.1)
  | inr c ↦ rw c (points_before-All s e t h.1)
]

points_from-All :
    (s e : UtcTime) (t : List UtcTime) → All (λ x. x <ℤ e) t → All (λ x. x <ℤ e) (points_from s t)
points_from-All s e [] h = tt
points_from-All s e (x ∷ t) h = elim (Bool-cases (ltb_ℤ x s)) [
  | inl c ↦ rw c (points_from-All s e t h.1)
  | inr c ↦ rw c (h.0, points_from-All s e t h.1)
]

back-All :
    (t : List UtcTime) (e : UtcTime)
    → All (λ x. x <ℤ e) t
    → 0 < length t
    → (last : UtcTime) × (back t ≡ some last) × (last <ℤ e)
unfolding back
back-All [] e h p = absurd (omega (arith, p))
back-All (x ∷ []) e h p = (x, refl, h.0)
back-All (x ∷ y ∷ t) e h p = back-All (y ∷ t) e h.1 (omega arith)

make-before :
    (t : List UtcTime) (e : UtcTime)
    → All (λ x. x <ℤ e) t
    → 0 < length t
    → make t e ≡ ok (point_dt t e)
unfolding make
make-before t e h p =
    let (last, at_back, low) = back-All t e h p in
    let accepted : leb_ℤ e last ≡ false = ground (arith, low) in rw (at_back, make, accepted) refl

touching-continuous :
    (a b : UtcPeriod) → b.start ≤ℤ a.end → a.start ≤ℤ b.end → continuous_merge a b ≡ true
unfolding continuous_merge
touching-continuous a b h k = ground (arith, h, k)

continuous-touches :
    (a b : UtcPeriod) → continuous_merge a b ≡ true → (b.start ≤ℤ a.end) × (a.start ≤ℤ b.end)
unfolding continuous_merge
continuous-touches a b h = (ground (arith, h), ground (arith, h))

copy_range-none : (t : List UtcTime) → copy_range 0 0 t ≡ ok []
unfolding copy_range
copy_range-none t = let fits : leb (0 + 0) (length t) ≡ true = ground arith in rw fits refl

-- The points that the merge collects.
abbrev pub merged_points : UtcTime → UtcTime → List UtcTime → List UtcTime → List UtcTime
merged_points start end a b = points_before start b ++ (a ++ points_from end b)

module _ (x y e f : UtcTime) (t u : List UtcTime) (A : IsAxis (point_dt (x ∷ t) e))
    (B : IsAxis (point_dt (y ∷ u) f)) where
  make-merged :
      make (merged_points x e (x ∷ t) (y ∷ u)) (max_ℤ e f)
      ≡ ok (point_dt (merged_points x e (x ∷ t) (y ∷ u)) (max_ℤ e f))
  make-merged =
      let end = max_ℤ e f in
      let all_a = All-map (λ z. z <ℤ e) (λ z. z <ℤ end) (x ∷ t) (λ z h. ground (arith, h)) A.1 in
      let all_b = All-map (λ z. z <ℤ f) (λ z. z <ℤ end) (y ∷ u) (λ z h. ground (arith, h)) B.1 in
      make-before (merged_points x e (x ∷ t) (y ∷ u)) end
        (All-append (λ z. z <ℤ end) (points_before x (y ∷ u)) ((x ∷ t) ++ points_from e (y ∷ u))
          (points_before-All x end (y ∷ u) all_b)
          (All-append (λ z. z <ℤ end) (x ∷ t) (points_from e (y ∷ u)) all_a
            (points_from-All e end (y ∷ u) all_b)))
        (omega (arith, length-append (points_before x (y ∷ u)) ((x ∷ t) ++ points_from e (y ∷ u))))

  merge_point-cons :
      x ≤ℤ f
      → y ≤ℤ e
      → merge_point (point_dt (x ∷ t) e) (point_dt (y ∷ u) f)
        ≡ ok (point_dt (merged_points x e (x ∷ t) (y ∷ u)) (max_ℤ e f))
  unfolding merge_point can_merge_point compute_merge_info merge_vectors Point.total_period
      Point.size
  merge_point-cons h k =
      let all = merged_points x e (x ∷ t) (y ∷ u) in
      let touches : continuous_merge (period x e) (period y f) ≡ true =
        touching-continuous (period x e) (period y f) k h in
      let (n, counted, before) = before_count-lem y u f (period x e) B h in
      elim (Bool-cases (ltb_ℤ e f)) [
        | inl c ↦
            let (i, first, after) = first_after-lem y u f (period x e) B k (ground arith) in
            let end : max_ℤ e f ≡ f = rw c refl in
            rw (touches, counted, c, first, before, after)
              (subst (λ q. make all q ≡ ok (point_dt all q)) end make-merged)
        | inr c ↦
            let none_after =
              points_from-early e (y ∷ u)
                (All-map (λ z. z <ℤ f) (λ z. z <ℤ e) (y ∷ u) (λ z h. ground (arith, h)) B.1) in
            let end : max_ℤ e f ≡ e = rw c refl in
            let made = subst (λ q. make all q ≡ ok (point_dt all q)) end make-merged in
            rw (touches, counted, c, before, copy_range-none (y ∷ u))
              (subst (λ q. make (points_before x (y ∷ u) ++ ((x ∷ t) ++ q)) e ≡ ok (point_dt all e))
                none_after made)
      ]

merge_point-parts :
    (t u : List UtcTime) (e f : UtcTime)
    → IsAxis (point_dt t e)
    → IsAxis (point_dt u f)
    → 0 < length t
    → 0 < length u
    → can_merge_point (point_dt t e) (point_dt u f) ≡ true
    → merge_point (point_dt t e) (point_dt u f)
      ≡ ok (point_dt (merged_points (Point.total_period (point_dt t e)).start e t u) (max_ℤ e f))
unfolding can_merge_point Point.total_period
merge_point-parts [] u e f A B p q h = absurd (omega (arith, p))
merge_point-parts (x ∷ t) [] e f A B p q h = absurd (omega (arith, q))
merge_point-parts (x ∷ t) (y ∷ u) e f A B p q h =
    let (k, l) = continuous-touches (period x e) (period y f) h in
    merge_point-cons x y e f t u A B l k

-- Two point axes in increasing order that have points and overlap or touch are merged: the points
-- of the second before the first, all points of the first, and the points of the second from the
-- end of the first on, with the later of the two ends.
pub merge_point-eq :
    (a b : PointDt)
    → IsAxis a
    → IsAxis b
    → 0 < length a.t
    → 0 < length b.t
    → can_merge_point a b ≡ true
    → merge_point a b
      ≡ ok (
          point_dt
            (merged_points (Point.total_period a).start a.t_end a.t b.t)
            (max_ℤ a.t_end b.t_end))
merge_point-eq a b A B p q h = merge_point-parts a.t b.t a.t_end b.t_end A B p q h
