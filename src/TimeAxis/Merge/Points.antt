-- ===== src/TimeAxis/Merge/Points.antt =====
-- The merge of two point axes: the points of the first, and those of the second outside of it.
use shyft.Prelude.{
  ◌-◌, ◌+◌, ◌≤◌, ℕ, zero, suc, ◌≡◌, refl, ap, sym, ◌∙◌, inl, inr, true, false, ◌||◌, Option, none,
  some, List, [], ◌∷◌, arith,
}
use mathlib.Core.Option.{some-injective}
use mathlib.Core.Path.{subst}
use shyft.Prelude.Tests.{if◌then◌else◌, leb, Bool-cases, Option-cases}
use shyft.Prelude.Lists.{All, All-map, length, take, drop, get_elem?}
use shyft.Prelude.Int.{pos, ◌-ℤ◌, ◌≤ℤ◌, ◌<ℤ◌, leb_ℤ, ltb_ℤ, -ℤ_parts}
use shyft.Prelude.Outcome.{ok}
use shyft.Utc.{UtcTime, UtcPeriod, period}
use shyft.TimeAxis.Point.{point_dt, lower_bound, index_of, binary_search, index_before, time}
use shyft.TimeAxis.Point.Sorted.{
  IsSorted, IsAxis, lower_bound_iff, All-get_elem?, lower_bound_pass, lower_bound_stop,
}
use shyft.TimeAxis.Point.Index.{index_of-search}
use shyft.TimeAxis.Point.Searches.{get_elem?-lt}
use shyft.TimeAxis.Merge.{before_count, first_after, index_after, copy_range}

-- The points before a time, and the others.
abbrev pub points_before : UtcTime → List UtcTime → List UtcTime
points_before tx [] = []
points_before tx (x ∷ t) = if ltb_ℤ x tx then x ∷ points_before tx t else points_before tx t

abbrev pub points_from : UtcTime → List UtcTime → List UtcTime
points_from tx [] = []
points_from tx (x ∷ t) = if ltb_ℤ x tx then points_from tx t else x ∷ points_from tx t

index_after-index_before : (n : ℕ) → index_after (index_before n) ≡ n
index_after-index_before zero = refl
index_after-index_before (suc n) = refl

-- On an axis, `index_of` of a time before the end is one less than `lower_bound`.
index_after-index_of :
    (x : UtcTime) (t : List UtcTime) (e tx : UtcTime)
    → IsAxis (point_dt (x ∷ t) e)
    → tx <ℤ e
    → (o : Option ℕ) × (index_of (point_dt (x ∷ t) e) tx none ≡ ok o)
      × (index_after o ≡ lower_bound tx (x ∷ t))
unfolding binary_search
index_after-index_of x t e tx h k = elim (Bool-cases (ltb_ℤ tx x || leb_ℤ e tx)) [
  | inl out ↦ (
    none,
    rw (index_of-search x t e tx h, out) refl,
    sym (lower_bound_stop tx x t (ground arith)),
  )
  | inr c ↦ (
    index_before (lower_bound tx (x ∷ t)),
    rw (index_of-search x t e tx h, c) refl,
    index_after-index_before (lower_bound tx (x ∷ t)),
  )
]

lower_bound-le-length : (tx : UtcTime) (t : List UtcTime) → lower_bound tx t ≤ length t
unfolding lower_bound
lower_bound-le-length tx [] = omega arith
lower_bound-le-length tx (x ∷ t) = elim (Bool-cases (leb_ℤ x tx)) [
  | inl c ↦ rw c (omega (arith, lower_bound-le-length tx t))
  | inr c ↦ rw c (omega arith)
]

points_before-late : (s : UtcTime) (t : List UtcTime) → All (λ x. s ≤ℤ x) t → points_before s t ≡ []
points_before-late s [] h = refl
points_before-late s (x ∷ t) h =
    let c : ltb_ℤ x s ≡ false = ground (arith, h.0) in rw c (points_before-late s t h.1)

points_from-late : (s : UtcTime) (t : List UtcTime) → All (λ x. s ≤ℤ x) t → points_from s t ≡ t
points_from-late s [] h = refl
points_from-late s (x ∷ t) h =
    let c : ltb_ℤ x s ≡ false = ground (arith, h.0) in
    rw c (ap (λ l. x ∷ l) (points_from-late s t h.1))

later : (x s : UtcTime) (t : List UtcTime) → s ≤ℤ x → All (λ y. x <ℤ y) t → All (λ y. s ≤ℤ y) t
later x s t h a = All-map (λ y. x <ℤ y) (λ y. s ≤ℤ y) t (λ y k. omega (arith, h, k)) a

-- The points that `lower_bound` for the time before `s` leaves behind are those before `s`.
take-lower_bound :
    (s : UtcTime) (t : List UtcTime)
    → IsSorted t
    → take (lower_bound (s -ℤ pos 1) t) t ≡ points_before s t
unfolding lower_bound
take-lower_bound s [] h = refl
take-lower_bound s (x ∷ t) h = elim (Bool-cases (ltb_ℤ x s)) [
  | inl c ↦
      let c' : leb_ℤ x (s -ℤ pos 1) ≡ true = ground (arith, -ℤ_parts s (pos 1)) in
      rw (c, c') (ap (λ l. x ∷ l) (take-lower_bound s t h.1))
  | inr c ↦
      let c' : leb_ℤ x (s -ℤ pos 1) ≡ false = ground (arith, -ℤ_parts s (pos 1)) in
      rw (c, c') (sym (points_before-late s t (later x s t (ground arith) h.0)))
]

lower_bound-late :
    (s : UtcTime) (t : List UtcTime) → IsSorted t → lower_bound s t ≡ 0 → All (λ y. s ≤ℤ y) t
lower_bound-late s [] h e = tt
lower_bound-late s (z ∷ t) h e = elim (Bool-cases (leb_ℤ z s)) [
  | inl c ↦ absurd (omega (arith, lower_bound_pass s z t (ground arith), e))
  | inr c ↦ (ground arith, later z s t (ground arith) h.0)
]

lower_bound-suc :
    (s x : UtcTime) (t : List UtcTime) (n : ℕ)
    → lower_bound s (x ∷ t) ≡ suc n
    → (x ≤ℤ s) × (lower_bound s t ≡ n)
lower_bound-suc s x t n e = elim (Bool-cases (leb_ℤ x s)) [
  | inl c ↦ (ground arith, omega (arith, lower_bound_pass s x t (ground arith), e))
  | inr c ↦ absurd (omega (arith, lower_bound_stop s x t (ground arith), e))
]

-- After the last point at or before a time, what is left are the points from that time on, with
-- that point if it equals the time.
drop-last_before :
    (s : UtcTime) (t : List UtcTime) (i : ℕ) (y : UtcTime)
    → IsSorted t
    → lower_bound s t ≡ suc i
    → get_elem? t i ≡ some y
    → (drop (if ltb_ℤ y s then suc i else i) t ≡ points_from s t) × (y ≤ℤ s)
drop-last_before s [] i y h e g = cc
drop-last_before s (x ∷ t) zero y h e g =
    let (low, rest) = lower_bound-suc s x t 0 e in
    let left = points_from-late s t (lower_bound-late s t h.1 rest) in
    subst (λ y. (drop (if ltb_ℤ y s then 1 else 0) (x ∷ t) ≡ points_from s (x ∷ t)) × (y ≤ℤ s))
      (some-injective x y g)
      (elim (Bool-cases (ltb_ℤ x s)) [
        | inl c ↦ (rw (c, left) refl, low)
        | inr c ↦ (rw (c, left) refl, low)
      ])
drop-last_before s (x ∷ t) (suc i) y h e g =
    let (_, rest) = lower_bound-suc s x t (suc i) e in
    let (left, y_low) = drop-last_before s t i y h.1 rest g in
    let x_y = All-get_elem? (λ z. x <ℤ z) t i y h.0 g in
    let c : ltb_ℤ x s ≡ true = ground (arith, y_low, x_y) in
    (
      rw c (elim (Bool-cases (ltb_ℤ y s)) [
        | inl d ↦ rw d (rw d at left)
        | inr d ↦ rw d (rw d at left)
      ]),
      y_low,
    )

take-length : (t : List UtcTime) (n : ℕ) → length t ≤ n → take n t ≡ t
take-length [] zero h = refl
take-length [] (suc n) h = refl
take-length (x ∷ t) zero h = absurd (omega (arith, h))
take-length (x ∷ t) (suc n) h = ap (λ l. x ∷ l) (take-length t n (omega (arith, h)))

length-drop : (t : List UtcTime) (n : ℕ) → length (drop n t) ≤ length t - n
length-drop t zero = omega arith
length-drop [] (suc n) = omega arith
length-drop (x ∷ t) (suc n) = omega (arith, length-drop t n)

-- What the second axis gives before the first one.
pub before_count-lem :
    (x : UtcTime) (t : List UtcTime) (e : UtcTime) (a_p : UtcPeriod)
    → IsAxis (point_dt (x ∷ t) e)
    → a_p.start ≤ℤ e
    → (n : ℕ) × (before_count (λ t'. index_of (point_dt (x ∷ t) e) t' none) a_p (period x e) ≡ ok n)
      × (copy_range 0 n (x ∷ t) ≡ ok (points_before a_p.start (x ∷ t)))
unfolding before_count copy_range
before_count-lem x t e a_p h k = elim (Bool-cases (ltb_ℤ x a_p.start)) [
  | inl c ↦
      let (o, found, after) =
        index_after-index_of x t e (a_p.start -ℤ pos 1) h
          (ground (arith, -ℤ_parts a_p.start (pos 1), k)) in
      let fits : leb (0 + index_after o) (length (x ∷ t)) ≡ true =
        ground (arith, after, lower_bound-le-length (a_p.start -ℤ pos 1) (x ∷ t)) in
      (
        index_after o,
        rw (c, found) refl,
        rw fits (ap ok (ap (λ n. take n (x ∷ t)) after ∙ take-lower_bound a_p.start (x ∷ t) h.0)),
      )
  | inr c ↦
      let fits : leb (0 + 0) (length (x ∷ t)) ≡ true = ground arith in
      (
        0,
        rw c refl,
        rw fits (
            ap ok (
              sym (
                points_before-late a_p.start (x ∷ t)
                  (ground arith, later x a_p.start t (ground arith) h.0.0)))),
      )
]

time-some :
    (t : List UtcTime) (e : UtcTime) (i : ℕ) (y : UtcTime)
    → get_elem? t i ≡ some y
    → time (point_dt t e) i ≡ ok y
unfolding time
time-some t e i y g = rw g refl

copy_range-rest :
    (n : ℕ) (t : List UtcTime) → n ≤ length t → copy_range n (length t - n) t ≡ ok (drop n t)
unfolding copy_range
copy_range-rest n t h =
    let fits : leb (n + (length t - n)) (length t) ≡ true = ground (arith, h) in
    rw fits (ap ok (take-length (drop n t) (length t - n) (length-drop t n)))

-- What the second axis gives after the first one.
pub first_after-lem :
    (x : UtcTime) (t : List UtcTime) (e : UtcTime) (a_p : UtcPeriod)
    → IsAxis (point_dt (x ∷ t) e)
    → x ≤ℤ a_p.end
    → a_p.end <ℤ e
    → (n : ℕ) × (first_after
          (λ t'. index_of (point_dt (x ∷ t) e) t' none)
          (time (point_dt (x ∷ t) e))
          a_p
        ≡ ok n)
      × (copy_range n (length (x ∷ t) - n) (x ∷ t) ≡ ok (points_from a_p.end (x ∷ t)))
unfolding first_after
first_after-lem x t e a_p h low k =
    let (o, found, after) = index_after-index_of x t e a_p.end h k in
    elim (Option-cases o) [
      | inl is_none ↦
          let zero_after : 0 ≡ lower_bound a_p.end (x ∷ t) =
            subst (λ o. index_after o ≡ lower_bound a_p.end (x ∷ t)) is_none after in
          absurd (omega (arith, zero_after, lower_bound_pass a_p.end x t low))
      | inr (i, is_some) ↦
          let count : suc i ≡ lower_bound a_p.end (x ∷ t) =
            subst (λ o. index_after o ≡ lower_bound a_p.end (x ∷ t)) is_some after in
          let found' : index_of (point_dt (x ∷ t) e) a_p.end none ≡ ok (some i) =
            found ∙ ap ok is_some in
          let (y, at_i, _, _) = (lower_bound_iff a_p.end e (x ∷ t) i h.0 k).0 (sym count) in
          let (left, _) = drop-last_before a_p.end (x ∷ t) i y h.0 (sym count) at_i in
          let n = if ltb_ℤ y a_p.end then suc i else i in
          let inside = get_elem?-lt (x ∷ t) i y at_i in
          (
            n,
            rw (found', time-some (x ∷ t) e i y at_i)
                (elim (Bool-cases (ltb_ℤ y a_p.end)) [
                  | inl d ↦ rw d refl
                  | inr d ↦ rw d (ap ok (omega arith))
                ]),
            copy_range-rest n (x ∷ t) (elim (Bool-cases (ltb_ℤ y a_p.end)) [
              | inl d ↦ rw d (omega (arith, inside))
              | inr d ↦ rw d (omega (arith, inside))
            ])
                ∙ ap ok left,
          )
    ]
