-- ===== src/Routing/Maps.antt =====
-- `std::map` with an integer key, as core/routing.h uses it: the entries in the order of their keys.
use shyft.Prelude.{◌≡◌, refl, arith, false, Option, none, some, inl, inr, List, [], ◌∷◌}
use shyft.Prelude.Tests.{Bool-cases, if◌then◌else◌}
use shyft.Prelude.Lists.{All, All-map}
use shyft.Prelude.Int.{ℤ, ◌<ℤ◌, ltb_ℤ, eqb_ℤ, eq_of_parts}

module _ {ℓ} {V : Type ℓ} where
  unfoldable pub find : ℤ → List (ℤ × V) → Option V
  find k [] = none
  find k (e ∷ m) = let rest = find k m in if eqb_ℤ k e.0 then some e.1 else rest

  -- `m[k] = v`
  unfoldable pub insert : ℤ → V → List (ℤ × V) → List (ℤ × V)
  insert k v [] = (k, v) ∷ []
  insert k v (e ∷ m) =
      let after = e ∷ insert k v m in
      if ltb_ℤ k e.0 then (k, v) ∷ e ∷ m else if eqb_ℤ k e.0 then (k, v) ∷ m else after

  unfoldable pub erase : ℤ → List (ℤ × V) → List (ℤ × V)
  erase k [] = []
  erase k (e ∷ m) = let rest = erase k m in if eqb_ℤ k e.0 then rest else e ∷ rest

  abbrev pub IsSorted : List (ℤ × V) → Type ℓ
  IsSorted [] = Unit
  IsSorted (e ∷ m) = All (λ x. e.0 <ℤ x.0) m × IsSorted m

  pub find-insert :
      (j k : ℤ) (v : V) (m : List (ℤ × V))
      → find j (insert k v m) ≡ (if eqb_ℤ j k then some v else find j m)
  unfolding find insert
  find-insert j k v [] = refl
  find-insert j k v (e ∷ m) = elim (Bool-cases (ltb_ℤ k e.0)) [
    | inl less ↦ rw less refl
    | inr more ↦ elim (Bool-cases (eqb_ℤ k e.0)) [
      | inl same ↦ elim (Bool-cases (eqb_ℤ j k)) [
        | inl hit ↦ rw (more, same, hit) refl
        | inr miss ↦
            let apart : eqb_ℤ j e.0 ≡ false = ground arith in rw (more, same, miss, apart) refl
      ]
      | inr other ↦ elim (Bool-cases (eqb_ℤ j e.0)) [
        | inl hit ↦
            let apart : eqb_ℤ j k ≡ false = ground arith in rw (more, other, hit, apart) refl
        | inr miss ↦ rw (more, other, miss, find-insert j k v m) refl
      ]
    ]
  ]

  pub find-erase :
      (j k : ℤ) (m : List (ℤ × V)) → find j (erase k m) ≡ (if eqb_ℤ j k then none else find j m)
  unfolding find erase
  find-erase j k [] = elim (Bool-cases (eqb_ℤ j k)) [
    | inl hit ↦ rw hit refl
    | inr miss ↦ rw miss refl
  ]
  find-erase j k (e ∷ m) = elim (Bool-cases (eqb_ℤ k e.0)) [
    | inl same ↦ elim (Bool-cases (eqb_ℤ j k)) [
      | inl hit ↦ rw (same, find-erase j k m, hit) refl
      | inr miss ↦
          let apart : eqb_ℤ j e.0 ≡ false = ground arith in
          rw (same, find-erase j k m, miss, apart) refl
    ]
    | inr other ↦ elim (Bool-cases (eqb_ℤ j e.0)) [
      | inl hit ↦ let apart : eqb_ℤ j k ≡ false = ground arith in rw (other, hit, apart) refl
      | inr miss ↦ rw (other, miss, find-erase j k m) refl
    ]
  ]

  -- A key that was not there can be taken out again.
  pub erase-insert :
      (k : ℤ) (v : V) (m : List (ℤ × V)) → find k m ≡ none → erase k (insert k v m) ≡ m
  unfolding find insert erase
  erase-insert k v [] absent = ground arith
  erase-insert k v (e ∷ m) absent = ground (arith, erase-insert k v m, erase-absent k m)
    where
      erase-absent : (k : ℤ) (m : List (ℤ × V)) → find k m ≡ none → erase k m ≡ m
      erase-absent k [] h = refl
      erase-absent k (e ∷ m) h = ground (arith, erase-absent k m)

  pub All-insert {κ} :
      (P : ℤ × V → Type κ) (k : ℤ) (v : V) (m : List (ℤ × V))
      → P (k, v)
      → All P m
      → All P (insert k v m)
  unfolding insert
  All-insert P k v [] p h = (p, tt)
  All-insert P k v (e ∷ m) p h = elim (Bool-cases (ltb_ℤ k e.0)) [
    | inl less ↦ rw less (p, h)
    | inr more ↦ elim (Bool-cases (eqb_ℤ k e.0)) [
      | inl same ↦ rw (more, same) (p, h.1)
      | inr other ↦ rw (more, other) (h.0, All-insert P k v m p h.1)
    ]
  ]

  pub All-erase {κ} : (P : ℤ × V → Type κ) (k : ℤ) (m : List (ℤ × V)) → All P m → All P (erase k m)
  unfolding erase
  All-erase P k [] h = tt
  All-erase P k (e ∷ m) h = elim (Bool-cases (eqb_ℤ k e.0)) [
    | inl same ↦ rw same (All-erase P k m h.1)
    | inr other ↦ rw other (h.0, All-erase P k m h.1)
  ]

  pub insert-IsSorted : (k : ℤ) (v : V) (m : List (ℤ × V)) → IsSorted m → IsSorted (insert k v m)
  unfolding insert
  insert-IsSorted k v [] s = (tt, tt)
  insert-IsSorted k v (e ∷ m) s = elim (Bool-cases (ltb_ℤ k e.0)) [
    | inl less ↦
        rw less
          ((ground arith, All-map (λ x. e.0 <ℤ x.0) (λ x. k <ℤ x.0) m (λ x h. ground arith) s.0), s)
    | inr more ↦ elim (Bool-cases (eqb_ℤ k e.0)) [
      | inl same ↦
          rw (more, same)
            (All-map (λ x. e.0 <ℤ x.0) (λ x. k <ℤ x.0) m (λ x h. ground arith) s.0, s.1)
      | inr other ↦
          rw (more, other)
            (All-insert (λ x. e.0 <ℤ x.0) k v m (ground arith) s.0, insert-IsSorted k v m s.1)
    ]
  ]

  pub erase-IsSorted : (k : ℤ) (m : List (ℤ × V)) → IsSorted m → IsSorted (erase k m)
  unfolding erase
  erase-IsSorted k [] s = tt
  erase-IsSorted k (e ∷ m) s = elim (Bool-cases (eqb_ℤ k e.0)) [
    | inl same ↦ rw same (erase-IsSorted k m s.1)
    | inr other ↦ rw other (All-erase (λ x. e.0 <ℤ x.0) k m s.0, erase-IsSorted k m s.1)
  ]

  -- What is found satisfies what all entries do.
  pub find-All {κ} :
      (P : ℤ × V → Type κ) (k : ℤ) (v : V) (m : List (ℤ × V))
      → All P m
      → find k m ≡ some v
      → P (k, v)
  unfolding find
  find-All P k v [] h found = cc
  find-All P k v (e ∷ m) h found = elim (Bool-cases (eqb_ℤ k e.0)) [
    | inl same ↦
        let value : e.1 ≡ v = ground arith in
        let key : e.0 ≡ k = eq_of_parts e.0 k (ground arith) in rw (← key, ← value) h.0
    | inr other ↦ find-All P k v m h.1 (ground arith)
  ]

  All-find-later :
      (m n : List (ℤ × V)) (k : ℤ) (v : V)
      → All (λ x. k <ℤ x.0) m
      → All (λ e. find e.0 n ≡ some e.1) m
      → All (λ e. find e.0 ((k, v) ∷ n) ≡ some e.1) m
  unfolding find
  All-find-later [] n k v after h = tt
  All-find-later (e ∷ m) n k v after h =
      (ground (arith, after.0, h.0), All-find-later m n k v after.1 h.1)

  -- Every entry is found by its key.
  pub All-find : (m : List (ℤ × V)) → IsSorted m → All (λ e. find e.0 m ≡ some e.1) m
  unfolding find
  All-find [] s = tt
  All-find (e ∷ m) s = (ground arith, All-find-later m m e.0 e.1 s.0 (All-find m s.1))
