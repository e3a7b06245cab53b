-- ===== src/Cache/Fragments/Merge.antt =====
-- A list of fragments as a partial function of time, and what a merge at its head does to it.
use shyft.Prelude.{
  ℕ, ◌∙◌, arith, ◌≡◌, refl, inl, inr, Bool, true, false, ◌||◌, Option, none, some, List, ◌∷◌,
}
use shyft.Prelude.Lists.{get_elem?}
use shyft.Prelude.Tests.{if◌then◌else◌, Bool-cases}
use shyft.Prelude.Int.{◌≤ℤ◌}
use shyft.Prelude.Outcome.{ok}
use shyft.Utc.{UtcTime, hull, contains}
use shyft.Utc.Period.{contains-hull, contains-hull_left, contains-of_within}
use shyft.Cache.Fragments.{Fragment}
use shyft.Cache.Fragments.Order.{find_at}

module _ {ℓ} {F V : Type ℓ} (T : Fragment F V) where
  open T use {
    total_period, IsFragment, valid-total_period, value_at, merge, merge-IsFragment,
    total_period-merge, value_at-merge,
  }

  abbrev pub found_value : Option F → UtcTime → Option V
  found_value none t = none
  found_value (some x) t = value_at x t

  -- The value that the fragments store at a time point.
  abbrev pub value_in : List F → UtcTime → Option V
  value_in f t = found_value (find_at T f t) t

  abbrev pub is_found : Option F → Bool
  is_found none = false
  is_found (some x) = true

  -- Whether some fragment covers a time.
  abbrev pub covers : List F → UtcTime → Bool
  covers f t = is_found (find_at T f t)

  -- `g` is `f` overlaid with the fragment `x`.
  abbrev pub Overlays : F → List F → List F → Type ℓ
  Overlays x f g =
      (t : UtcTime)
      → (value_in g t ≡ (if contains (total_period x) t then value_at x t else value_in f t))
        × (covers g t ≡ (contains (total_period x) t || covers f t))

  pub Overlays-cons : (x : F) (f : List F) → Overlays x f (x ∷ f)
  Overlays-cons x f t = elim (Bool-cases (contains (total_period x) t)) [
    | inl c ↦ (rw c, rw c)
    | inr c ↦ (rw c, rw c)
  ]

  -- It is enough that the new list answers like `f` at the times outside `x`.
  pub Overlays-of_outside :
      (x : F) (f f' g : List F)
      → Overlays x f' g
      → ((t : UtcTime) → contains (total_period x) t ≡ false → find_at T f t ≡ find_at T f' t)
      → Overlays x f g
  Overlays-of_outside x f f' g o same t = elim (Bool-cases (contains (total_period x) t)) [
    | inl c ↦ rw c (rw c at (o t))
    | inr c ↦ rw (same t c) (o t)
  ]

  -- A second merge at the head of a list that a first one made.
  pub Overlays-trans :
      (x m : F) (f g l : List F) → Overlays m l g → Overlays x f (m ∷ l) → Overlays x f g
  Overlays-trans x m f g l o o' t = elim (Bool-cases (contains (total_period m) t)) [
    | inl c ↦ rw ((rw c at (o t)).0, (rw c at (o t)).1) (rw (c, find_at) at (o' t))
    | inr c ↦ rw ((rw c at (o t)).0, (rw c at (o t)).1) (rw (c, find_at) at (o' t))
  ]

  module _ (x y m : F) (fx : IsFragment x) (fy : IsFragment y) (merged : merge x y ≡ ok m) where
    pub Overlays-merge :
        (f : List F)
        → (total_period x).start ≤ℤ (total_period y).end
        → (total_period y).start ≤ℤ (total_period x).end
        → Overlays x (y ∷ f) (m ∷ f)
    Overlays-merge f h k t =
        let period_is : total_period m ≡ hull (total_period x) (total_period y) =
          total_period-merge x y m fx fy merged in
        let value_is = value_at-merge x y m t fx fy merged in
        elim (Bool-cases (contains (total_period x) t)) [
          | inl c ↦
              let here : contains (total_period m) t ≡ true = rw period_is (
                contains-hull_left (total_period x) (total_period y) t (valid-total_period x fx)
                  (valid-total_period y fy) c) in
              rw (c, here, find_at) (rw c at value_is, refl)
          | inr c ↦
              let same : contains (total_period m) t ≡ contains (total_period y) t = rw period_is (
                contains-hull (total_period x) (total_period y) t (valid-total_period x fx)
                  (valid-total_period y fy) h k c) in
              elim (Bool-cases (contains (total_period y) t)) [
                | inl d ↦ rw (c, same, d, find_at) (rw c at value_is, refl)
                | inr d ↦ rw (c, same, d, find_at) (refl, refl)
              ]
        ]

  -- `y` covers the period of `x`, and stores its values there.
  abbrev pub Keeps : F → F → Type ℓ
  Keeps x y =
      ((total_period y).start ≤ℤ (total_period x).start)
      × ((total_period x).end ≤ℤ (total_period y).end)
      × ((t : UtcTime) → contains (total_period x) t ≡ true → value_at y t ≡ value_at x t)

  -- Some fragment of the list does so.
  abbrev pub HasKept : F → List F → Type ℓ
  HasKept x g = (k : ℕ) × (y : F) × (get_elem? g k ≡ some y) × Keeps x y

  pub HasKept-cons : (x y : F) (g : List F) → Keeps x y → HasKept x (y ∷ g)
  HasKept-cons x y g kept = (0, y, refl, kept)

  pub Keeps-refl : (x : F) → Keeps x x
  Keeps-refl x = (omega arith, omega arith, λ t h. refl)

  pub Keeps-merge : (x y m : F) → IsFragment x → IsFragment y → merge x y ≡ ok m → Keeps x m
  Keeps-merge x y m fx fy merged =
      let period_is : total_period m ≡ hull (total_period x) (total_period y) =
        total_period-merge x y m fx fy merged in
      (
        rw period_is (ground arith),
        rw period_is (ground arith),
        λ t h. rw h at (value_at-merge x y m t fx fy merged),
      )

  pub Keeps-trans : (x y z : F) → IsFragment x → IsFragment y → Keeps x y → Keeps y z → Keeps x z
  Keeps-trans x y z fx fy kept kept' = (
    omega (arith, kept.0, kept'.0),
    omega (arith, kept.1, kept'.1),
    λ t h. elim (Bool-cases (contains (total_period y) t)) [
      | inl c ↦ kept'.2 t c ∙ kept.2 t h
      | inr c ↦
          let none_of_x : contains (total_period x) t ≡ false =
            contains-of_within (total_period y) (total_period x) t (valid-total_period y fy)
              (valid-total_period x fx) kept.0 kept.1 c in
          cc
    ],
  )
