-- ===== src/TimeAxis/Point/Index.antt =====
-- `index_of` of `point_dt` without a hint, against the periods of the axis.
use shyft.Prelude.{
  ℕ, zero, suc, ◌≡◌, ◌↔◌, refl, inl, inr, ◌||◌, some, none, List, [], ◌∷◌, arith, ap,
}
use mathlib.Core.Option.{some-injective}
use shyft.Prelude.Tests.{if◌then◌else◌, Bool-cases, Option-cases}
use shyft.Prelude.Lists.{get_elem?}
use shyft.Prelude.Int.{◌≤ℤ◌, ◌<ℤ◌, leb_ℤ, ltb_ℤ}
use shyft.Prelude.Outcome.{ok, ok-injective}
use shyft.Utc.{UtcTime}
use shyft.TimeAxis.Point.{
  PointDt, point_dt, back, lower_bound, index_of, index_inside, index_before, binary_search,
}
use shyft.TimeAxis.Point.Sorted.{
  IsAxis, LiesIn, lower_bound_iff, lower_bound-back, end_or, before_first, All-get_elem?,
}

pub back-some : (x : UtcTime) (t : List UtcTime) → (last : UtcTime) × (back (x ∷ t) ≡ some last)
unfolding back
back-some x [] = (x, refl)
back-some x (y ∷ t) = back-some y t

-- On an axis, `index_of` without a hint is the binary search, inside the period of the axis.
pub index_of-search :
    (x : UtcTime) (t : List UtcTime) (e tx : UtcTime)
    → IsAxis (point_dt (x ∷ t) e)
    → index_of (point_dt (x ∷ t) e) tx none
      ≡ (if ltb_ℤ tx x || leb_ℤ e tx then ok none else ok (binary_search (x ∷ t) tx))
unfolding index_of index_inside binary_search
index_of-search x t e tx h =
    let (last, at_back) = back-some x t in
    elim (Bool-cases (ltb_ℤ tx x || leb_ℤ e tx)) [
      | inl out ↦ rw out
      | inr in_axis ↦ elim (Bool-cases (leb_ℤ last tx)) [
        | inl late ↦
            rw
              (
                in_axis,
                at_back,
                late,
                (lower_bound-back tx last (x ∷ t) h.0 at_back (ground arith)).0,
              )
              refl
        | inr c ↦ rw (in_axis, at_back, c)
      ]
    ]

index_before_iff : (n i : ℕ) → (index_before n ≡ some i) ↔ (n ≡ suc i)
index_before_iff zero i = (λ h. cc, λ h. absurd (omega (arith, h)))
index_before_iff (suc n) i = (λ h. ap suc (some-injective n i h), λ h. ap some (omega (arith, h)))

-- A time in one of the periods is inside the axis.
LiesIn-inside :
    (x : UtcTime) (t : List UtcTime) (e tx : UtcTime) (i : ℕ)
    → IsAxis (point_dt (x ∷ t) e)
    → LiesIn tx e (x ∷ t) i
    → (x ≤ℤ tx) × (tx <ℤ e)
LiesIn-inside x t e tx i h k = (
  elim (Bool-cases (ltb_ℤ tx x)) [
    | inl c ↦ absurd (before_first tx e x t i h.0 (ground arith) k)
    | inr c ↦ ground arith
  ],
  elim (Option-cases (get_elem? t i)) [
    | inl c ↦ rw (c, end_or) at (k.3)
    | inr (y, c) ↦
        let below : tx <ℤ y = rw (c, end_or) at (k.3) in
        let y_below = All-get_elem? (λ y. y <ℤ e) t i y h.1.1 c in omega (arith, below, y_below)
  ],
)

index_of_nil : (e tx : UtcTime) → index_of (point_dt [] e) tx none ≡ ok none
unfolding index_of
index_of_nil e tx = refl

index_of-LiesIn :
    (t : List UtcTime) (e tx : UtcTime) (i : ℕ)
    → IsAxis (point_dt t e)
    → (index_of (point_dt t e) tx none ≡ ok (some i)) ↔ LiesIn tx e t i
unfolding binary_search
index_of-LiesIn [] e tx i h = (λ k. cc (index_of_nil e tx), λ k. cc k.1)
index_of-LiesIn (x ∷ t) e tx i h = elim (Bool-cases (ltb_ℤ tx x || leb_ℤ e tx)) [
  | inl out ↦ (
    λ k. cc (rw (index_of-search x t e tx h, out) at k),
    λ k. absurd (let (low, high) = LiesIn-inside x t e tx i h k in ground (arith, low, high)),
  )
  | inr c ↦
      rw (index_of-search x t e tx h, c)
        (
          λ k.
              (lower_bound_iff tx e (x ∷ t) i h.0 (ground arith)).0
                ((index_before_iff (lower_bound tx (x ∷ t)) i).0 (ok-injective k)),
          λ k. ap ok (
              (index_before_iff (lower_bound tx (x ∷ t)) i).1
                ((lower_bound_iff tx e (x ∷ t) i h.0 (ground arith)).1 k)),
        )
]

-- For an axis in increasing order, `index_of` without a hint is the index `i` exactly if the time
-- lies in the period that starts at the point `i`.
pub index_of-LiesIn_iff :
    (a : PointDt) (tx : UtcTime) (i : ℕ)
    → IsAxis a
    → (index_of a tx none ≡ ok (some i)) ↔ LiesIn tx a.t_end a.t i
index_of-LiesIn_iff a tx i h = index_of-LiesIn a.t a.t_end tx i h
