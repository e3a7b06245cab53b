-- ===== src/TimeAxis/Combine/Points.antt =====
-- The axis that `combine` makes of two slices.
use shyft.Prelude.{◌≡◌, refl, sym, arith, ◌↔◌, ◌⊎◌, inl, inr, some, List, [], ◌∷◌}
use mathlib.Core.Path.{subst}
use mathlib.Core.List.{Memᴰ}
use mathlib.Core.List.Memᴰ
use mathlib.Core.Option.{some-injective}
use shyft.Prelude.Tests.{Bool-cases}
use shyft.Prelude.Lists.{All, All-map}
use shyft.Prelude.Int.{◌<ℤ◌, ◌≤ℤ◌, eqb_ℤ, eq_of_parts}
use shyft.Prelude.Outcome.{ok}
use shyft.Utc.{UtcTime}
use shyft.TimeAxis.Point.{PointDt, point_dt, back, pop_back}
use shyft.TimeAxis.Point.Sorted.{IsSorted, IsAxis}
use shyft.TimeAxis.Generic.{of_point}
use shyft.TimeAxis.Combine.{combine_times, with_end, combine_slices}
use shyft.TimeAxis.Combine.Slices.{Memᴰ-cons, IsCombined, combine_times-IsCombined}

pop_back-All {κ} : (P : UtcTime → Type κ) (l : List UtcTime) → All P l → All P (pop_back l)
unfolding pop_back
pop_back-All P [] h = tt
pop_back-All P (x ∷ []) h = tt
pop_back-All P (x ∷ y ∷ l) h = (h.0, pop_back-All P (y ∷ l) h.1)

pop_back-IsSorted : (l : List UtcTime) → IsSorted l → IsSorted (pop_back l)
unfolding pop_back
pop_back-IsSorted [] s = tt
pop_back-IsSorted (x ∷ []) s = tt
pop_back-IsSorted (x ∷ y ∷ l) s =
    (pop_back-All (λ z. x <ℤ z) (y ∷ l) s.0, pop_back-IsSorted (y ∷ l) s.1)

back-All :
    (P : UtcTime → Type 0) (l : List UtcTime) (last : UtcTime)
    → All P l
    → back l ≡ some last
    → P last
unfolding back
back-All P [] last h e = cc
back-All P (x ∷ []) last h e = subst P (some-injective x last e) h.0
back-All P (x ∷ y ∷ l) last h e = back-All P (y ∷ l) last h.1 e

-- All but the last lie before it.
pop_back-early :
    (l : List UtcTime) (last : UtcTime)
    → IsSorted l
    → back l ≡ some last
    → All (λ x. x <ℤ last) (pop_back l)
unfolding pop_back back
pop_back-early [] last s e = tt
pop_back-early (x ∷ []) last s e = tt
pop_back-early (x ∷ y ∷ l) last s e =
    (back-All (λ z. x <ℤ z) (y ∷ l) last s.0 e, pop_back-early (y ∷ l) last s.1 e)

pop_back-Memᴰ :
    (l : List UtcTime) (last t : UtcTime)
    → back l ≡ some last
    → t <ℤ last
    → Memᴰ t (pop_back l) ↔ Memᴰ t l
unfolding pop_back back
pop_back-Memᴰ [] last t e early = cc
pop_back-Memᴰ (x ∷ []) last t e early =
    let same : x ≡ last = some-injective x last e in
    let other : (t ≡ x) → ⊥ = λ here. absurd (ground (arith, here, same, early)) in
    (λ m. absurd (Memᴰ.not-nil m), λ m. absurd (other (Memᴰ.eq_of_singleton m)))
pop_back-Memᴰ (x ∷ y ∷ l) last t e early = ground (
  arith,
  pop_back-Memᴰ (y ∷ l) last t e early,
  Memᴰ-cons t x (pop_back (y ∷ l)),
  Memᴰ-cons t x (y ∷ l),
)

back-some : (x : UtcTime) (l : List UtcTime) → (last : UtcTime) × (back (x ∷ l) ≡ some last)
unfolding back
back-some x [] = (x, refl)
back-some x (y ∷ l) = back-some y l

-- All are at most the last.
le-back :
    (l : List UtcTime) (last : UtcTime) → IsSorted l → back l ≡ some last → All (λ x. x ≤ℤ last) l
unfolding back
le-back [] last s e = tt
le-back (x ∷ []) last s e = let same : x ≡ last = some-injective x last e in (ground arith, tt)
le-back (x ∷ y ∷ l) last s e =
    let early : x <ℤ last = back-All (λ z. x <ℤ z) (y ∷ l) last s.0 e in
    (omega arith, le-back (y ∷ l) last s.1 e)

-- An axis of the points that are asked for, up to `te`.
abbrev pub IsCombination : UtcTime → List UtcTime → List UtcTime → PointDt → Type 0
IsCombination te xs ys p =
    (p.t_end ≡ te) × IsAxis p × ((t : UtcTime) → t <ℤ te → Memᴰ t p.t ↔ (Memᴰ t xs ⊎ Memᴰ t ys))

with_end-returns :
    (te x : UtcTime) (l : List UtcTime)
    → IsSorted (x ∷ l)
    → All (λ y. y ≤ℤ te) (x ∷ l)
    → (p : PointDt) × (with_end te (x ∷ l) ≡ ok (of_point p))
      × (p.t_end ≡ te)
      × IsAxis p
      × ((t : UtcTime) → t <ℤ te → Memᴰ t p.t ↔ Memᴰ t (x ∷ l))
unfolding with_end
with_end-returns te x l s h =
    let (last, e) = back-some x l in
    elim (Bool-cases (eqb_ℤ last te)) [
      | inl at_end ↦
          let same : last ≡ te = eq_of_parts last te (ground arith) in
          (
            point_dt (pop_back (x ∷ l)) te,
            rw (e, at_end, with_end) refl,
            refl,
            (
              pop_back-IsSorted (x ∷ l) s,
              subst (λ z. All (λ y. y <ℤ z) (pop_back (x ∷ l))) same
                  (pop_back-early (x ∷ l) last s e),
            ),
            λ t early. pop_back-Memᴰ (x ∷ l) last t e (ground (arith, same, early)),
          )
      | inr before_end ↦
          let early : last <ℤ te =
            ground (arith, before_end, back-All (λ y. y ≤ℤ te) (x ∷ l) last h e) in
          (
            point_dt (x ∷ l) te,
            rw (e, before_end, with_end) refl,
            refl,
            (
              s,
              All-map (λ y. y ≤ℤ last) (λ y. y <ℤ te) (x ∷ l) (λ y k. omega arith)
                  (le-back (x ∷ l) last s e),
            ),
            λ t _. (λ m. m, λ m. m),
          )
    ]

-- Two slices in increasing order up to the end `te` of an axis, one of which has a time before that,
-- are combined to a point axis that ends at `te`; its points are in increasing order before the end,
-- and are exactly the times of the slices before `te`.
pub combine_slices-IsCombination :
    (te x : UtcTime) (xs ys : List UtcTime)
    → IsSorted xs
    → IsSorted ys
    → All (λ y. y ≤ℤ te) xs
    → All (λ y. y ≤ℤ te) ys
    → x <ℤ te
    → Memᴰ x xs ⊎ Memᴰ x ys
    → (p : PointDt) × (combine_slices te xs ys ≡ ok (of_point p)) × IsCombination te xs ys p
unfolding combine_slices
combine_slices-IsCombination te x xs ys s r h k early inside =
    elim (List-cases (combine_times te xs ys)) [
      | inl nothing ↦
          absurd (Memᴰ.not-nil (subst (Memᴰ x) nothing ((C.members ys x early).1 inside)))
      | inr (y, l, is) ↦
          let (p, returns, ends, axis, members) =
            with_end-returns te y l (subst IsSorted is (C.sorted ys s r))
              (subst (All (λ y. y ≤ℤ te)) is (C.all (λ y. y ≤ℤ te) ys h k)) in
          (
            p,
            rw is returns,
            (
              ends,
              axis,
              λ t t_early.
                  let (to, from) = members t t_early in
                  let (to', from') = C.members ys t t_early in
                  (
                    λ m. to' (subst (Memᴰ t) (sym is) (to m)),
                    λ m. from (subst (Memᴰ t) is (from' m)),
                  ),
            ),
          )
    ]
  where
    C : IsCombined te xs (combine_times te xs)
    C = combine_times-IsCombined te xs

    List-cases :
        (l : List UtcTime) → (l ≡ []) ⊎ ((y : UtcTime) × (rest : List UtcTime) × (l ≡ y ∷ rest))
    List-cases [] = inl refl
    List-cases (y ∷ rest) = inr (y, rest, refl)
