-- ===== src/TimeAxis/Combine/Slices.antt =====
-- The points of a combined axis are those of both slices.
use shyft.Prelude.{◌≡◌, arith, ◌↔◌, ◌⊎◌, inl, inr, List, [], ◌∷◌}
use mathlib.Core.List.{Memᴰ}
use mathlib.Core.List.Memᴰ
use shyft.Prelude.Tests.{Bool-cases}
use shyft.Prelude.Lists.{All, All-map}
use shyft.Prelude.Int.{◌<ℤ◌, ltb_ℤ, eqb_ℤ, eq_of_parts}
use shyft.Utc.{UtcTime}
use shyft.TimeAxis.Point.Sorted.{IsSorted}
use shyft.TimeAxis.Combine.{before, combine_from, combine_times}

pub Memᴰ-cons {ℓ} : {A : Type ℓ} (t x : A) (l : List A) → Memᴰ t (x ∷ l) ↔ ((t ≡ x) ⊎ Memᴰ t l)
Memᴰ-cons t x l = (λ m. Memᴰ.cases_cons m, join)
  where
    join : (t ≡ x) ⊎ Memᴰ t l → Memᴰ t (x ∷ l)
    join (inl here) = Memᴰ.head here
    join (inr later) = Memᴰ.tail later

All-before {κ} :
    (P : UtcTime → Type κ) (te : UtcTime) (l : List UtcTime) → All P l → All P (before te l)
unfolding before
All-before P te [] h = tt
All-before P te (t ∷ l) h = elim (Bool-cases (ltb_ℤ t te)) [
  | inl early ↦ rw early (h.0, All-before P te l h.1)
  | inr late ↦ rw late (All-before P te l h.1)
]

before-IsSorted : (te : UtcTime) (l : List UtcTime) → IsSorted l → IsSorted (before te l)
unfolding before
before-IsSorted te [] s = tt
before-IsSorted te (t ∷ l) s = elim (Bool-cases (ltb_ℤ t te)) [
  | inl early ↦ rw early (All-before (λ y. t <ℤ y) te l s.0, before-IsSorted te l s.1)
  | inr late ↦ rw late (before-IsSorted te l s.1)
]

Memᴰ-before_iff :
    (te : UtcTime) (l : List UtcTime) (t : UtcTime) → t <ℤ te → Memᴰ t (before te l) ↔ Memᴰ t l
unfolding before
Memᴰ-before_iff te [] t early = (λ m. m, λ m. m)
Memᴰ-before_iff te (x ∷ l) t early = elim (Bool-cases (ltb_ℤ x te)) [
  | inl kept ↦
      rw kept
        (ground (arith, Memᴰ-before_iff te l t early, Memᴰ-cons t x l, Memᴰ-cons t x (before te l)))
  | inr dropped ↦
      let other : (t ≡ x) → ⊥ = λ same. absurd (ground (arith, dropped, early, same)) in
      rw dropped (ground (arith, Memᴰ-before_iff te l t early, Memᴰ-cons t x l, other))
]

-- What the loop for the rest of a list of times is to do.
pub record IsCombined (te : UtcTime) (xs : List UtcTime) (loop : List UtcTime → List UtcTime)
    : Type 1 where
  pub all : (P : UtcTime → Type 0) (ys : List UtcTime) → All P xs → All P ys → All P (loop ys)
  pub sorted : (ys : List UtcTime) → IsSorted xs → IsSorted ys → IsSorted (loop ys)
  pub members :
      (ys : List UtcTime) (t : UtcTime) → t <ℤ te → Memᴰ t (loop ys) ↔ (Memᴰ t xs ⊎ Memᴰ t ys)

module _ (te x : UtcTime) (xs : List UtcTime) (next : List UtcTime → List UtcTime)
    (C : IsCombined te xs next) where
  combine_from-All :
      (P : UtcTime → Type 0) (ys : List UtcTime)
      → All P (x ∷ xs)
      → All P ys
      → All P (combine_from te x xs next ys)
  unfolding combine_from
  combine_from-All P [] h k = All-before P te (x ∷ xs) h
  combine_from-All P (y ∷ ys) h k = elim (Bool-cases (eqb_ℤ x y)) [
    | inl same ↦ rw same (h.0, C.all P ys h.1 k.1)
    | inr other ↦ elim (Bool-cases (ltb_ℤ x y)) [
      | inl first ↦ rw (other, first) (h.0, C.all P (y ∷ ys) h.1 k)
      | inr second ↦ rw (other, second) (k.0, combine_from-All P ys h k.1)
    ]
  ]

  combine_from-IsSorted :
      (ys : List UtcTime)
      → IsSorted (x ∷ xs)
      → IsSorted ys
      → IsSorted (combine_from te x xs next ys)
  unfolding combine_from
  combine_from-IsSorted [] s r = before-IsSorted te (x ∷ xs) s
  combine_from-IsSorted (y ∷ ys) s r = elim (Bool-cases (eqb_ℤ x y)) [
    | inl same ↦ rw same (
      C.all (λ z. x <ℤ z) ys s.0
          (All-map (λ z. y <ℤ z) (λ z. x <ℤ z) ys (λ z h. ground (arith, same)) r.0),
      C.sorted ys s.1 r.1,
    )
    | inr other ↦ elim (Bool-cases (ltb_ℤ x y)) [
      | inl first ↦
          let less : x <ℤ y = ground (arith, first) in
          rw (other, first)
            (
              C.all (λ z. x <ℤ z) (y ∷ ys) s.0
                  (less, All-map (λ z. y <ℤ z) (λ z. x <ℤ z) ys (λ z h. omega arith) r.0),
              C.sorted (y ∷ ys) s.1 r,
            )
      | inr second ↦
          let more : y <ℤ x = ground (arith, other, second) in
          rw (other, second)
            (
              combine_from-All (λ z. y <ℤ z) ys
                  (more, All-map (λ z. x <ℤ z) (λ z. y <ℤ z) xs (λ z h. omega arith) s.0) r.0,
              combine_from-IsSorted ys s r.1,
            )
    ]
  ]

  combine_from-Memᴰ :
      (ys : List UtcTime) (t : UtcTime)
      → t <ℤ te
      → Memᴰ t (combine_from te x xs next ys) ↔ (Memᴰ t (x ∷ xs) ⊎ Memᴰ t ys)
  unfolding combine_from
  combine_from-Memᴰ [] t early =
      let (to, from) = Memᴰ-before_iff te (x ∷ xs) t early in
      (λ m. inl (to m), λ s. elim s [ inl m ↦ from m | inr m ↦ absurd (Memᴰ.not-nil m) ])
  combine_from-Memᴰ (y ∷ ys) t early = elim (Bool-cases (eqb_ℤ x y)) [
    | inl same ↦
        let equal : x ≡ y = eq_of_parts x y (ground arith) in
        rw same (
          ground (
            arith,
            equal,
            C.members ys t early,
            Memᴰ-cons t x (next ys),
            Memᴰ-cons t x xs,
            Memᴰ-cons t y ys,
          ))
    | inr other ↦ elim (Bool-cases (ltb_ℤ x y)) [
      | inl first ↦
          rw (other, first)
            (ground (
              arith,
              C.members (y ∷ ys) t early,
              Memᴰ-cons t x (next (y ∷ ys)),
              Memᴰ-cons t x xs,
              Memᴰ-cons t y ys,
            ))
      | inr second ↦
          rw (other, second)
            (ground (
              arith,
              combine_from-Memᴰ ys t early,
              Memᴰ-cons t y (combine_from te x xs next ys),
              Memᴰ-cons t x xs,
              Memᴰ-cons t y ys,
            ))
    ]
  ]

pub combine_times-IsCombined :
    (te : UtcTime) (xs : List UtcTime) → IsCombined te xs (combine_times te xs)
unfolding combine_times
combine_times-IsCombined te [] = record {
  all = λ P ys h k. All-before P te ys k;
  sorted = λ ys s r. before-IsSorted te ys r;
  members = λ ys t early.
      let (to, from) = Memᴰ-before_iff te ys t early in
      (λ m. inr (to m), λ s. elim s [ inl m ↦ absurd (Memᴰ.not-nil m) | inr m ↦ from m ]);
}
combine_times-IsCombined te (x ∷ xs) =
    let C = combine_times-IsCombined te xs in
    record {
      all = λ P ys h k. combine_from-All te x xs (combine_times te xs) C P ys h k;
      sorted = λ ys s r. combine_from-IsSorted te x xs (combine_times te xs) C ys s r;
      members = λ ys t early. combine_from-Memᴰ te x xs (combine_times te xs) C ys t early;
    }
