-- ===== src/TimeAxis/Point/Searches.antt =====
-- The two loops of `index_of` of `point_dt` that start at a hint: where they stop.
use shyft.Prelude.{
  ℕ, zero, suc, ◌+◌, ◌-◌, ◌<◌, ◌≤◌, ◌≡◌, ◌⊎◌, refl, inl, inr, true, false, ◌&&◌, some, none, List,
  [], ◌∷◌, arith, ◌∙◌, sym,
}
use mathlib.Core.Option.{some-injective}
use mathlib.Core.Path.{subst}
use shyft.Prelude.Tests.{Bool-cases, ltb}
use shyft.Prelude.Lists.{length, get_elem?}
use shyft.Prelude.Int.{◌<ℤ◌, ltb_ℤ}
use shyft.Prelude.Outcome.{ok}
use shyft.Utc.{UtcTime}
use shyft.TimeAxis.Point.{back, read, search_up, search_down}

pub get_elem?-lt : (t : List UtcTime) (i : ℕ) (x : UtcTime) → get_elem? t i ≡ some x → i < length t
get_elem?-lt [] i x e = cc
get_elem?-lt (y ∷ t) zero x e = omega arith
get_elem?-lt (y ∷ t) (suc i) x e = omega (arith, get_elem?-lt t i x e)

pub get_elem?-none : (t : List UtcTime) (i : ℕ) → get_elem? t i ≡ none → length t ≤ i
get_elem?-none [] i e = omega arith
get_elem?-none (y ∷ t) zero e = cc
get_elem?-none (y ∷ t) (suc i) e = omega (arith, get_elem?-none t i e)

pub read-some : (t : List UtcTime) (i : ℕ) (x : UtcTime) → get_elem? t i ≡ some x → read t i ≡ ok x
unfolding read
read-some t i x e = rw (e, read)

-- After a point before the last one, there is another point.
next_point :
    (t : List UtcTime) (i : ℕ) (x last : UtcTime)
    → back t ≡ some last
    → get_elem? t i ≡ some x
    → x <ℤ last
    → (y : UtcTime) × (get_elem? t (suc i) ≡ some y)
unfolding back
next_point [] i x last b e h = cc
next_point (y ∷ []) zero x last b e h =
    let same : x ≡ last = sym (some-injective y x e) ∙ some-injective y last b in
    absurd (let h' : last <ℤ last = subst (λ x. x <ℤ last) same h in omega (arith, h'))
next_point (y ∷ []) (suc i) x last b e h = cc
next_point (y ∷ z ∷ t) zero x last b e h = (z, refl)
next_point (y ∷ z ∷ t) (suc i) x last b e h = next_point (z ∷ t) i x last b e h

-- The upward loop stops where it started, or right after a point before the time.
pub search_up_lem :
    (j : ℕ) (t : List UtcTime) (tx last x : UtcTime) (ix : ℕ)
    → back t ≡ some last
    → tx <ℤ last
    → get_elem? t ix ≡ some x
    → (k : ℕ) × (y : UtcTime) × (search_up j t tx ix ≡ ok k)
      × (get_elem? t k ≡ some y)
      × ((k ≡ ix) ⊎ ((m : ℕ) × (z : UtcTime) × (k ≡ suc m) × (get_elem? t m ≡ some z) × (z <ℤ tx)))
unfolding search_up
search_up_lem zero t tx last x ix b h e = (ix, x, rw (read-some t ix x e), e, inl refl)
search_up_lem (suc j) t tx last x ix b h e = elim (Bool-cases (ltb_ℤ x tx && ltb ix (length t))) [
  | inl c ↦
      let below : x <ℤ tx = ground arith in
      let (x', e') = next_point t ix x last b e (omega (arith, below, h)) in
      let (k, y, stops, at_k, after) = search_up_lem j t tx last x' (suc ix) b h e' in
      let step : ix + 1 ≡ suc ix = omega arith in
      (
        k,
        y,
        rw (read-some t ix x e, c, step) stops,
        at_k,
        elim after [ inl same ↦ inr (ix, x, same, e, below) | inr before ↦ inr before ],
      )
  | inr c ↦ (ix, x, rw (read-some t ix x e, c), e, inl refl)
]

previous_point :
    (t : List UtcTime) (i : ℕ) (x : UtcTime)
    → get_elem? t (suc i) ≡ some x
    → (y : UtcTime) × (get_elem? t i ≡ some y)
previous_point [] i x e = cc
previous_point (y ∷ t) zero x e = (y, refl)
previous_point (y ∷ t) (suc i) x e = previous_point t i x e

-- The downward loop stops where it started, or right before a point after the time.
pub search_down_lem :
    (j : ℕ) (t : List UtcTime) (tx x : UtcTime) (ix : ℕ)
    → get_elem? t ix ≡ some x
    → (k : ℕ) × (y : UtcTime) × (search_down j t tx ix ≡ ok k)
      × (get_elem? t k ≡ some y)
      × ((k ≡ ix) ⊎ ((z : UtcTime) × (get_elem? t (suc k) ≡ some z) × (tx <ℤ z)))
unfolding search_down
search_down_lem zero t tx x ix e = (ix, x, rw (read-some t ix x e), e, inl refl)
search_down_lem (suc j) t tx x zero e =
    let stop : (ltb_ℤ tx x && ltb 0 0) ≡ false = ground arith in
    (0, x, rw (read-some t 0 x e, stop), e, inl refl)
search_down_lem (suc j) t tx x (suc ix) e = elim (Bool-cases (ltb_ℤ tx x)) [
  | inl c ↦
      let (x', e') = previous_point t ix x e in
      let (k, y, stops, at_k, before) = search_down_lem j t tx x' ix e' in
      let step : suc ix - 1 ≡ ix = omega arith in
      let positive : ltb 0 (suc ix) ≡ true = ground arith in
      (
        k,
        y,
        rw (read-some t (suc ix) x e, c, positive, step) stops,
        at_k,
        elim before [ inl same ↦ inr (x, rw same e, ground arith) | inr after ↦ inr after ],
      )
  | inr c ↦ (suc ix, x, rw (read-some t (suc ix) x e, c), e, inl refl)
]
