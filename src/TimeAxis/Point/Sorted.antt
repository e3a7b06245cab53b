-- ===== src/TimeAxis/Point/Sorted.antt =====
-- Points in increasing order, and where `lower_bound` stops among them.
use shyft.Prelude.{
  ℕ, zero, suc, ◌≡◌, ◌↔◌, refl, sym, ap, ◌∙◌, inl, inr, true, false, some, none, List, [], ◌∷◌,
  arith, Option,
}
use mathlib.Core.Option.{some-injective}
use mathlib.Core.Path.{subst}
use shyft.Prelude.Tests.{Bool-cases}
use shyft.Prelude.Lists.{All, length, get_elem?}
use shyft.Prelude.Int.{◌≤ℤ◌, ◌<ℤ◌, leb_ℤ}
use shyft.Utc.{UtcTime}
use shyft.TimeAxis.Point.{PointDt, back, lower_bound}

abbrev pub IsSorted : List UtcTime → Type 0
IsSorted [] = Unit
IsSorted (x ∷ t) = All (λ y. x <ℤ y) t × IsSorted t

-- Points in increasing order, all before the end.
abbrev pub IsAxis : PointDt → Type 0
IsAxis a = IsSorted a.t × All (λ x. x <ℤ a.t_end) a.t

abbrev pub end_or : Option UtcTime → UtcTime → UtcTime
end_or o e = elim o [ none ↦ e | some y ↦ y ]

-- The time lies in the period that starts at the point `i`.
abbrev pub LiesIn : UtcTime → UtcTime → List UtcTime → ℕ → Type 0
LiesIn tx e t i =
    (x : UtcTime) × (get_elem? t i ≡ some x) × (x ≤ℤ tx) × (tx <ℤ end_or (get_elem? t (suc i)) e)

pub All-get_elem? {κ} :
    (P : UtcTime → Type κ) (t : List UtcTime) (i : ℕ) (x : UtcTime)
    → All P t
    → get_elem? t i ≡ some x
    → P x
All-get_elem? P [] i x h e = cc
All-get_elem? P (y ∷ t) zero x h e = subst P (some-injective y x e) h.0
All-get_elem? P (y ∷ t) (suc i) x h e = All-get_elem? P t i x h.1 e

pub lower_bound_pass :
    (tx x : UtcTime) (t : List UtcTime) → x ≤ℤ tx → lower_bound tx (x ∷ t) ≡ suc (lower_bound tx t)
unfolding lower_bound
lower_bound_pass tx x t h = let c : leb_ℤ x tx ≡ true = ground arith in rw c

pub lower_bound_stop : (tx x : UtcTime) (t : List UtcTime) → tx <ℤ x → lower_bound tx (x ∷ t) ≡ 0
unfolding lower_bound
lower_bound_stop tx x t h = let c : leb_ℤ x tx ≡ false = ground arith in rw c

lower_bound_nil : (tx : UtcTime) → lower_bound tx [] ≡ 0
unfolding lower_bound
lower_bound_nil tx = refl

-- If the first point passes, the next one is after the time exactly if nothing else passes.
lower_bound-zero_iff :
    (tx e : UtcTime) (t : List UtcTime)
    → tx <ℤ e
    → (lower_bound tx t ≡ 0) ↔ (tx <ℤ end_or (get_elem? t 0) e)
lower_bound-zero_iff tx e [] h = (λ k. h, λ k. lower_bound_nil tx)
lower_bound-zero_iff tx e (y ∷ t) h = elim (Bool-cases (leb_ℤ y tx)) [
  | inl c ↦ (λ k. omega (arith, lower_bound_pass tx y t (ground arith), k), λ k. ground arith)
  | inr c ↦ (λ k. ground arith, λ k. lower_bound_stop tx y t (ground arith))
]

-- A time before the first of the points lies in no period.
pub before_first :
    (tx e x : UtcTime) (t : List UtcTime) (i : ℕ)
    → IsSorted (x ∷ t)
    → tx <ℤ x
    → ¬ LiesIn tx e (x ∷ t) i
before_first tx e x t zero s h (z, at_i, low, _) =
    let low' : x ≤ℤ tx = subst (λ z. z ≤ℤ tx) (sym (some-injective x z at_i)) low in
    omega (arith, h, low')
before_first tx e x t (suc i) s h (z, at_i, low, _) =
    let after = All-get_elem? (λ y. x <ℤ y) t i z s.0 at_i in omega (arith, h, low, after)

-- The points up to `lower_bound` are at or before the time, and the next one is after it.
pub lower_bound_iff :
    (tx e : UtcTime) (t : List UtcTime) (i : ℕ)
    → IsSorted t
    → tx <ℤ e
    → (lower_bound tx t ≡ suc i) ↔ LiesIn tx e t i
lower_bound_iff tx e [] i s h = (λ k. absurd (omega (arith, lower_bound_nil tx, k)), λ k. cc k.1)
lower_bound_iff tx e (x ∷ t) zero s h = elim (Bool-cases (leb_ℤ x tx)) [
  | inl c ↦ rw (lower_bound_pass tx x t (ground arith)) (
    λ k. (x, refl, ground arith, (lower_bound-zero_iff tx e t h).0 (omega (arith, k))),
    λ k. ap suc ((lower_bound-zero_iff tx e t h).1 k.3),
  )
  | inr c ↦ (
    λ k. absurd (omega (arith, lower_bound_stop tx x t (ground arith), k)),
    λ k. absurd (before_first tx e x t 0 s (ground arith) k),
  )
]
lower_bound_iff tx e (x ∷ t) (suc i) s h = elim (Bool-cases (leb_ℤ x tx)) [
  | inl c ↦ rw (lower_bound_pass tx x t (ground arith)) (
    λ k. (lower_bound_iff tx e t i s.1 h).0 (omega (arith, k)),
    λ k. ap suc ((lower_bound_iff tx e t i s.1 h).1 k),
  )
  | inr c ↦ (
    λ k. absurd (omega (arith, lower_bound_stop tx x t (ground arith), k)),
    λ k. absurd (before_first tx e x t (suc i) s (ground arith) k),
  )
]

-- At or after the last point, no point is left.
pub lower_bound-back :
    (tx last : UtcTime) (t : List UtcTime)
    → IsSorted t
    → back t ≡ some last
    → last ≤ℤ tx
    → (lower_bound tx t ≡ length t) × All (λ x. x ≤ℤ last) t
unfolding back
lower_bound-back tx last [] s e h = cc
lower_bound-back tx last (x ∷ []) s e h =
    let same : x ≡ last = some-injective x last e in
    (
      lower_bound_pass tx x [] (rw same h) ∙ ap suc (lower_bound_nil tx),
      (rw same (omega arith), tt),
    )
lower_bound-back tx last (x ∷ y ∷ t) s e h =
    let (rest, below) = lower_bound-back tx last (y ∷ t) s.1 e h in
    let first : x ≤ℤ last = omega (arith, s.0.0, below.0) in
    (lower_bound_pass tx x (y ∷ t) (omega (arith, first, h)) ∙ ap suc rest, (first, below))
