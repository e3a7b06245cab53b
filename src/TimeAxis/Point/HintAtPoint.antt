-- ===== src/TimeAxis/Point/HintAtPoint.antt =====
-- `index_of` of `point_dt` for a time that is a point of the axis, from a hint below its index.
use shyft.Prelude.{
  ℕ, zero, suc, ◌+◌, ◌<◌, ◌≤◌, ◌≡◌, refl, inl, inr, true, false, ◌&&◌, some, none, List, [], ◌∷◌,
  arith,
}
use mathlib.Core.Option.{some-injective}
use mathlib.Core.Path.{subst}
use shyft.Prelude.Tests.{Option-cases, ltb}
use shyft.Prelude.Lists.{length, get_elem?}
use shyft.Prelude.Int.{◌≤ℤ◌, ◌<ℤ◌, leb_ℤ, ltb_ℤ, eqb_ℤ}
use shyft.Prelude.Outcome.{ok}
use shyft.Utc.{UtcTime}
use shyft.TimeAxis.Point.{PointDt, point_dt, index_of, index_inside, search_from, search_up}
use shyft.TimeAxis.Point.Sorted.{IsSorted, IsAxis, lower_bound-back, All-get_elem?, end_or}
use shyft.TimeAxis.Point.Index.{back-some, index_of-LiesIn_iff}
use shyft.TimeAxis.Point.Searches.{get_elem?-lt, get_elem?-none, read-some}
use shyft.TimeAxis.Point.Hint.{index_of-inside}

point_lt :
    (t : List UtcTime) (i j : ℕ) (x y : UtcTime)
    → IsSorted t
    → get_elem? t i ≡ some x
    → get_elem? t j ≡ some y
    → i < j
    → x <ℤ y
point_lt [] i j x y s e f h = cc
point_lt (z ∷ t) i zero x y s e f h = absurd (omega (arith, h))
point_lt (z ∷ t) zero (suc j) x y s e f h =
    subst (λ x. x <ℤ y) (some-injective z x e) (All-get_elem? (λ y. z <ℤ y) t j y s.0 f)
point_lt (z ∷ t) (suc i) (suc j) x y s e f h = point_lt t i j x y s.1 e f (omega (arith, h))

point_below :
    (t : List UtcTime) (i j : ℕ) (y : UtcTime)
    → IsSorted t
    → get_elem? t j ≡ some y
    → i < j
    → (x : UtcTime) × (get_elem? t i ≡ some x) × (x <ℤ y)
point_below t i j y s f h = elim (Option-cases (get_elem? t i)) [
  | inl c ↦ absurd (omega (arith, h, get_elem?-lt t j y f, get_elem?-none t i c))
  | inr (x, e) ↦ (x, e, point_lt t i j x y s e f h)
]

stops_here :
    (j : ℕ) (t : List UtcTime) (tx : UtcTime) (m : ℕ)
    → get_elem? t m ≡ some tx
    → search_up j t tx m ≡ ok m
unfolding search_up
stops_here zero t tx m e = rw (read-some t m tx e)
stops_here (suc j) t tx m e =
    let equal : ltb_ℤ tx tx ≡ false = ground arith in rw (read-some t m tx e, equal)

-- The upward loop stops at a point that equals the time, if that is near enough.
search_up-point :
    (j k : ℕ) (t : List UtcTime) (tx : UtcTime) (ix m : ℕ)
    → IsSorted t
    → k ≤ j
    → m ≡ k + ix
    → get_elem? t m ≡ some tx
    → search_up j t tx ix ≡ ok m
unfolding search_up
search_up-point j zero t tx ix m s h at e =
    let here : ix ≡ m = omega (arith, at) in rw here (stops_here j t tx m e)
search_up-point zero (suc k) t tx ix m s h at e = absurd (omega (arith, h))
search_up-point (suc j) (suc k) t tx ix m s h at e =
    let (x, at_ix, below) = point_below t ix m tx s e (omega (arith, at)) in
    let goes_on : (ltb_ℤ x tx && ltb ix (length t)) ≡ true =
      ground (arith, below, get_elem?-lt t ix x at_ix) in
    rw (read-some t ix x at_ix, goes_on)
      (search_up-point j k t tx (ix + 1) m s (omega (arith, h)) (omega (arith, at)) e)

search_from-point :
    (t : List UtcTime) (tx : UtcTime) (hint k : ℕ)
    → IsSorted t
    → k < 9
    → get_elem? t (suc (k + hint)) ≡ some tx
    → search_from t tx hint ≡ ok (some (k + hint))
unfolding search_from
search_from-point t tx hint k s near e =
    let (x, at_hint, below) = point_below t hint (suc (k + hint)) tx s e (omega arith) in
    let differs : eqb_ℤ x tx ≡ false = ground (arith, below) in
    let low : ltb_ℤ x tx ≡ true = ground (arith, below) in
    let reached : leb_ℤ tx tx ≡ true = ground arith in
    let stops =
      search_up-point 9 (suc k) t tx hint (suc (k + hint)) s (omega (arith, near)) (omega arith)
        e in
    rw (read-some t hint x at_hint, differs, low, stops, read-some t (suc (k + hint)) tx e, reached)
      refl

index_of-hint_below :
    (t : List UtcTime) (e tx y : UtcTime) (hint k : ℕ)
    → IsAxis (point_dt t e)
    → k < 9
    → get_elem? t (suc (k + hint)) ≡ some tx
    → get_elem? t (suc (suc (k + hint))) ≡ some y
    → index_of (point_dt t e) tx (some hint) ≡ ok (some (k + hint))
unfolding index_inside
index_of-hint_below [] e tx y hint k h near f g = cc
index_of-hint_below (x ∷ t) e tx y hint k h near f g =
    let (last, b) = back-some x t in
    let next =
      point_lt (x ∷ t) (suc (k + hint)) (suc (suc (k + hint))) tx y h.0 f g (omega arith) in
    let y_last =
      All-get_elem? (λ z. z ≤ℤ last) (x ∷ t) (suc (suc (k + hint))) y
        (lower_bound-back last last (x ∷ t) h.0 b (omega arith)).1 g in
    let first = point_lt (x ∷ t) 0 (suc (k + hint)) x tx h.0 refl f (omega arith) in
    let before_end = All-get_elem? (λ z. z <ℤ e) (x ∷ t) (suc (k + hint)) tx h.1 f in
    let (z, at_hint, _) = point_below (x ∷ t) hint (suc (k + hint)) tx h.0 f (omega arith) in
    let inside : ltb hint (length (x ∷ t)) ≡ true =
      ground (arith, get_elem?-lt (x ∷ t) hint z at_hint) in
    rw
      (
        index_of-inside x t e tx last (some hint) (omega (arith, first)) before_end b
            (omega (arith, next, y_last)),
        inside,
      )
      (search_from-point (x ∷ t) tx hint k h.0 near f)

-- For an axis in increasing order and a time that is a point of it, but not the last one: from a
-- hint one to nine places below the index of that point, `index_of` answers the index before it,
-- while without a hint it answers the index of the point.
pub index_of-hint_at_point :
    (a : PointDt) (tx y : UtcTime) (hint k : ℕ)
    → IsAxis a
    → k < 9
    → get_elem? a.t (suc (k + hint)) ≡ some tx
    → get_elem? a.t (suc (suc (k + hint))) ≡ some y
    → (index_of a tx (some hint) ≡ ok (some (k + hint)))
      × (index_of a tx none ≡ ok (some (suc (k + hint))))
index_of-hint_at_point a tx y hint k h near e f =
    let next = point_lt a.t (suc (k + hint)) (suc (suc (k + hint))) tx y h.0 e f (omega arith) in
    (
      index_of-hint_below a.t a.t_end tx y hint k h near e f,
      (index_of-LiesIn_iff a tx (suc (k + hint)) h).1 (tx, e, omega arith, rw (f, end_or) next),
    )
