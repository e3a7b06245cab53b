-- ===== src/TimeAxis/Point/Hint.antt =====
-- `index_of` of `point_dt` with a hint, against the search without one.
use shyft.Prelude.{
  ℕ, suc, ◌≡◌, ◌⊎◌, refl, inl, inr, true, false, ◌&&◌, ◌||◌, some, none, Option, List, [], ◌∷◌,
  arith, ◌∙◌, ap, sym,
}
use mathlib.Core.Option.{some-injective}
use mathlib.Core.Path.{subst}
use shyft.Prelude.Tests.{if◌then◌else◌, Bool-cases, Option-cases, ltb, ◌==◌}
use shyft.Prelude.Lists.{All, length, get_elem?}
use shyft.Prelude.Int.{◌≤ℤ◌, ◌<ℤ◌, leb_ℤ, ltb_ℤ, eqb_ℤ}
use shyft.Prelude.Outcome.{ok}
use shyft.Utc.{UtcTime}
use shyft.TimeAxis.Point.{
  PointDt, point_dt, back, index_of, index_inside, index_before, binary_search, search_from,
}
use shyft.TimeAxis.Point.Sorted.{IsSorted, IsAxis, lower_bound_iff, All-get_elem?, end_or}
use shyft.TimeAxis.Point.Index.{back-some}
use shyft.TimeAxis.Point.Searches.{
  get_elem?-lt, get_elem?-none, read-some, search_up_lem, search_down_lem,
}

module _ (t : List UtcTime) (tx last : UtcTime) (s : IsSorted t) (b : back t ≡ some last)
    (h : tx <ℤ last) where
  -- A point at or before the time, with the next one after it, is what the binary search finds.
  binary_search-LiesIn :
      (i : ℕ) (x y : UtcTime)
      → get_elem? t i ≡ some x
      → x ≤ℤ tx
      → get_elem? t (suc i) ≡ some y
      → tx <ℤ y
      → binary_search t tx ≡ some i
  unfolding binary_search
  binary_search-LiesIn i x y e low e' high =
      let next : tx <ℤ end_or (get_elem? t (suc i)) last = rw (e', end_or) high in
      rw ((lower_bound_iff tx last t i s h).1 (x, e, low, next)) refl

  -- The answer after the upward loop, which started at a point before the time.
  up_answer :
      (hint k : ℕ) (x y : UtcTime)
      → get_elem? t hint ≡ some x
      → x <ℤ tx
      → get_elem? t k ≡ some y
      → eqb_ℤ y tx ≡ false
      → (k ≡ hint) ⊎ ((m : ℕ) × (z : UtcTime) × (k ≡ suc m) × (get_elem? t m ≡ some z) × (z <ℤ tx))
      → (if leb_ℤ tx y || k == length t then ok (index_before k) else ok (binary_search t tx))
        ≡ ok (binary_search t tx)
  up_answer hint k x y e below at_k differs after = elim (Bool-cases (leb_ℤ tx y)) [
    | inl d ↦ elim after [
      | inl same ↦
          let x_is_y : x ≡ y = some-injective x y (sym e ∙ ap (get_elem? t) (sym same) ∙ at_k) in
          absurd
            (let y_below : y <ℤ tx = subst (λ x. x <ℤ tx) x_is_y below in ground (arith, y_below))
      | inr (m, z, k_is, at_m, z_below) ↦
          let at_next : get_elem? t (suc m) ≡ some y =
            subst (λ k. get_elem? t k ≡ some y) k_is at_k in
          rw
            (
              d,
              k_is,
              binary_search-LiesIn m z y at_m (omega (arith, z_below)) at_next (ground arith),
            )
            refl
    ]
    | inr d ↦
        let inside : (k == length t) ≡ false = ground (arith, get_elem?-lt t k y at_k) in
        rw (d, inside)
  ]

  -- The answer after the downward loop, which started at a point after the time.
  down_answer :
      (hint k : ℕ) (x y first : UtcTime)
      → get_elem? t 0 ≡ some first
      → first ≤ℤ tx
      → get_elem? t hint ≡ some x
      → tx <ℤ x
      → get_elem? t k ≡ some y
      → (k ≡ hint) ⊎ ((z : UtcTime) × (get_elem? t (suc k) ≡ some z) × (tx <ℤ z))
      → (if ltb_ℤ tx y && ltb 0 k then ok (binary_search t tx) else ok (some k))
        ≡ ok (binary_search t tx)
  down_answer hint k x y first e0 low e above at_k before = elim (Bool-cases (ltb_ℤ tx y)) [
    | inl d ↦
        let positive : ltb 0 k ≡ true = elim (Bool-cases (ltb 0 k)) [
          | inl p ↦ p
          | inr p ↦
              let k_is : k ≡ 0 = ground arith in
              let y_is : first ≡ y =
                some-injective first y (sym e0 ∙ ap (get_elem? t) (sym k_is) ∙ at_k) in
              absurd (let y_low : y ≤ℤ tx = subst (λ y. y ≤ℤ tx) y_is low in ground (arith, y_low))
        ] in
        rw (d, positive)
    | inr d ↦ elim before [
      | inl same ↦
          let x_is_y : x ≡ y = some-injective x y (sym e ∙ ap (get_elem? t) (sym same) ∙ at_k) in
          absurd
            (let y_above : tx <ℤ y = subst (λ x. tx <ℤ x) x_is_y above in ground (arith, y_above))
      | inr (z, at_next, z_above) ↦
          rw (d, binary_search-LiesIn k y z at_k (ground arith) at_next z_above) refl
    ]
  ]

  -- If the time is no point of the axis, the search from a hint finds what the binary search does.
  search_from-binary_search :
      (hint : ℕ) (x first : UtcTime)
      → All (λ y. eqb_ℤ y tx ≡ false) t
      → get_elem? t 0 ≡ some first
      → first ≤ℤ tx
      → get_elem? t hint ≡ some x
      → search_from t tx hint ≡ ok (binary_search t tx)
  unfolding search_from
  search_from-binary_search hint x first apart e0 low e =
      let differs = All-get_elem? (λ y. eqb_ℤ y tx ≡ false) t hint x apart e in
      elim (Bool-cases (ltb_ℤ x tx)) [
        | inl c ↦
            let (k, y, stops, at_k, after) = search_up_lem 9 t tx last x hint b h e in
            rw (read-some t hint x e, differs, c, stops, read-some t k y at_k)
              (up_answer hint k x y e (ground arith) at_k
                (All-get_elem? (λ y. eqb_ℤ y tx ≡ false) t k y apart at_k) after)
        | inr c ↦
            let (k, y, stops, at_k, before) = search_down_lem 9 t tx x hint e in
            rw (read-some t hint x e, differs, c, stops, read-some t k y at_k)
              (down_answer hint k x y first e0 low e (ground arith) at_k before)
      ]

-- Inside an axis and before its last point, the answer is that of `index_inside`.
pub index_of-inside :
    (x : UtcTime) (t : List UtcTime) (e tx last : UtcTime) (hint : Option ℕ)
    → x ≤ℤ tx
    → tx <ℤ e
    → back (x ∷ t) ≡ some last
    → tx <ℤ last
    → index_of (point_dt (x ∷ t) e) tx hint ≡ index_inside (x ∷ t) tx hint
unfolding index_of
index_of-inside x t e tx last hint low high b h =
    let in_axis : (ltb_ℤ tx x || leb_ℤ e tx) ≡ false = ground (arith, low, high) in
    let early : leb_ℤ last tx ≡ false = ground (arith, h) in rw (in_axis, b, early) refl

index_inside-hint :
    (x : UtcTime) (t : List UtcTime) (tx last : UtcTime) (hint : ℕ)
    → IsSorted (x ∷ t)
    → All (λ y. eqb_ℤ y tx ≡ false) (x ∷ t)
    → x ≤ℤ tx
    → back (x ∷ t) ≡ some last
    → tx <ℤ last
    → index_inside (x ∷ t) tx (some hint) ≡ index_inside (x ∷ t) tx none
unfolding index_inside
index_inside-hint x t tx last hint s apart low b h = elim (Option-cases (get_elem? (x ∷ t) hint)) [
  | inl c ↦
      let past : ltb hint (length (x ∷ t)) ≡ false =
        ground (arith, get_elem?-none (x ∷ t) hint c) in
      rw past refl
  | inr (z, c) ↦
      let inside : ltb hint (length (x ∷ t)) ≡ true =
        ground (arith, get_elem?-lt (x ∷ t) hint z c) in
      rw inside (search_from-binary_search (x ∷ t) tx last s b h hint z x apart refl low c)
]

index_of-hint_points :
    (t : List UtcTime) (e tx : UtcTime) (hint : ℕ)
    → IsAxis (point_dt t e)
    → All (λ y. eqb_ℤ y tx ≡ false) t
    → index_of (point_dt t e) tx (some hint) ≡ index_of (point_dt t e) tx none
unfolding index_of
index_of-hint_points [] e tx hint h apart = refl
index_of-hint_points (x ∷ t) e tx hint h apart =
    let (last, b) = back-some x t in
    elim (Bool-cases (ltb_ℤ tx x || leb_ℤ e tx)) [
      | inl out ↦ rw out refl
      | inr c ↦ elim (Bool-cases (leb_ℤ last tx)) [
        | inl late ↦ rw (c, b, late) refl
        | inr d ↦
            rw (c, b, d)
              (index_inside-hint x t tx last hint h.0 apart (ground arith) b (ground arith))
      ]
    ]

-- For an axis in increasing order, a hint does not change the answer for a time that is no point of
-- the axis, whatever the hint is.
pub index_of-hint :
    (a : PointDt) (tx : UtcTime) (hint : ℕ)
    → IsAxis a
    → All (λ y. eqb_ℤ y tx ≡ false) a.t
    → index_of a tx (some hint) ≡ index_of a tx none
index_of-hint a tx hint h apart = index_of-hint_points a.t a.t_end tx hint h apart
