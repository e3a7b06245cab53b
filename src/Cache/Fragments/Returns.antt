-- ===== src/Cache/Fragments/Returns.antt =====
-- `add` of `mini_frag` returns: it inverts no iterator range, and throws only where a merge does.
use shyft.Prelude.{◌≡◌, refl, inl, inr, true, List, [], ◌∷◌, ◌++◌, arith}
use shyft.Prelude.Tests.{Bool-cases}
use shyft.Prelude.Int.{ltb_ℤ, leb_ℤ, ◌≤ℤ◌}
use shyft.Prelude.Outcome.{Outcome, ok, ◌>>=◌, >>=-eq-ok}
use shyft.Utc.{UtcTime, UtcPeriod, hull}
use shyft.Cache.Fragments.{
  Fragment, split_while, ends_before, ends_in, erase_to, replace_p1, merge_p1, add_at, add,
}
use shyft.Cache.Fragments.Order.{
  IsApart, from_p2, EndsAfter, EndsAfter-from_p2, start-le-end, split_pass, split_stop, split_nil,
}

abbrev pub Returns {ℓ} : {A : Type ℓ} → Outcome A → Type ℓ
Returns {A = A} m = (a : A) × (m ≡ ok a)

Returns->>= {ℓ κ} :
    {A : Type ℓ} {B : Type κ} (m : Outcome A) (f : A → Outcome B)
    → Returns m
    → ((a : A) → m ≡ ok a → Returns (f a))
    → Returns (m >>= f)
Returns->>= m f (a, e) k = rw e (k a e)

module _ {ℓ} {F V : Type ℓ} (T : Fragment F V) where
  open T use {total_period, IsFragment, merge, merge-IsFragment, total_period-merge}

  -- Two fragments that overlap or touch can be merged.
  abbrev pub Merges : Type ℓ
  Merges =
      (x y : F)
      → IsFragment x
      → IsFragment y
      → (total_period x).start ≤ℤ (total_period y).end
      → (total_period y).start ≤ℤ (total_period x).end
      → Returns (merge x y)

  module _ (merges : Merges) (b : UtcTime) (x : F) (fx : IsFragment x) where
    abbrev p : UtcPeriod
    p = total_period x

    replace_p1-Returns :
        (p1 : F) (f r : List F) → EndsAfter T b p r → Returns (replace_p1 T x (p1 ∷ f) r)
    unfolding replace_p1 erase_to
    replace_p1-Returns p1 f [] a = (x ∷ [], refl)
    replace_p1-Returns p1 f (p2 ∷ above) a =
        elim (Bool-cases (leb_ℤ (total_period p2).start p.end)) [
          | inl c ↦ rw c (
              Returns->>= (merge x p2) (λ m. ok (m ∷ above))
                (merges x p2 fx a.0 (omega (arith, start-le-end T x fx)) (ground arith))
                (λ m e. (m ∷ above, refl)))
          | inr c ↦ rw c (x ∷ p2 ∷ above, refl)
        ]

    replace_p1-Returns_self :
        (p1 : F) (f : List F)
        → EndsAfter T b p (p1 ∷ f)
        → (total_period p1).start ≤ℤ p.end
        → Returns (replace_p1 T x [] (p1 ∷ f))
    unfolding replace_p1 erase_to
    replace_p1-Returns_self p1 f a k =
        let touch : leb_ℤ (total_period p1).start p.end ≡ true = ground arith in
        rw touch (
          Returns->>= (merge x p1) (λ m. ok (m ∷ f))
            (merges x p1 fx a.0 (omega (arith, start-le-end T x fx)) k) (λ m e. (m ∷ f, refl)))

    module _ (p1 : F) (f1 : IsFragment p1) (h : p.start ≤ℤ (total_period p1).end)
        (k : (total_period p1).start ≤ℤ p.end) where
      -- The first merge gives a fragment that still reaches p2.
      two_merges :
          (p2 : F) (above : List F)
          → EndsAfter T b p (p2 ∷ above)
          → (total_period p2).start ≤ℤ p.end
          → Returns (merge x p1 >>= λ m. merge m p2 >>= λ n. ok (n ∷ above))
      two_merges p2 above a touch =
          Returns->>= (merge x p1) (λ m. merge m p2 >>= λ n. ok (n ∷ above)) (merges x p1 fx f1 h k)
            (λ m e.
              let period_is : total_period m ≡ hull p (total_period p1) =
                total_period-merge x p1 m fx f1 e in
              Returns->>= (merge m p2) (λ n. ok (n ∷ above))
                (merges m p2 (merge-IsFragment x p1 m fx f1 e) a.0
                  (rw period_is (ground (arith, start-le-end T x fx)))
                  (rw period_is (ground arith)))
                (λ n e. (n ∷ above, refl)))

      merge_p1-Returns :
          (c : F) (f r : List F) → EndsAfter T b p r → Returns (merge_p1 T x p1 (c ∷ f) r)
      unfolding merge_p1 erase_to
      merge_p1-Returns c f [] a =
          Returns->>= (merge x p1) (λ m. ok (m ∷ [])) (merges x p1 fx f1 h k)
            (λ m e. (m ∷ [], refl))
      merge_p1-Returns c f (p2 ∷ above) a =
          elim (Bool-cases (leb_ℤ (total_period p2).start p.end)) [
            | inl d ↦ rw d (two_merges p2 above a (ground arith))
            | inr d ↦ rw d (
                Returns->>= (merge x p1) (λ m. ok (m ∷ p2 ∷ above)) (merges x p1 fx f1 h k)
                  (λ m e. (m ∷ p2 ∷ above, refl)))
          ]

      merge_p1-Returns_self :
          (f : List F) → EndsAfter T b p (p1 ∷ f) → Returns (merge_p1 T x p1 [] (p1 ∷ f))
      unfolding merge_p1
      merge_p1-Returns_self f a =
          let touch : leb_ℤ (total_period p1).start p.end ≡ true = ground arith in
          rw touch (two_merges p1 f a k)

    add_at-Returns :
        (p1 : F) (f : List F)
        → IsApart T b (p1 ∷ f)
        → p.start ≤ℤ (total_period p1).end
        → Returns (add_at T x (p1 ∷ f))
    unfolding add_at
    add_at-Returns p1 f a h =
        let ends = EndsAfter-from_p2 T b p (p1 ∷ f) a in
        elim (Bool-cases (ltb_ℤ p.end (total_period p1).start)) [
          | inl c ↦ rw c (x ∷ p1 ∷ f, refl)
          | inr c ↦ elim (Bool-cases (ends_in T p p1)) [
            | inl i ↦
                let parts = split_pass T (ends_in T p) p1 f i in
                let ends' = rw (parts, from_p2) at ends in
                elim (Bool-cases (leb_ℤ p.start (total_period p1).start)) [
                  | inl d ↦ rw (c, parts, d) (replace_p1-Returns p1 _ _ ends')
                  | inr d ↦ rw (c, parts, d) (merge_p1-Returns p1 a.0 h (ground arith) p1 _ _ ends')
                ]
            | inr i ↦
                let parts = split_stop T (ends_in T p) p1 f i in
                let ends' = rw (parts, from_p2) at ends in
                elim (Bool-cases (leb_ℤ p.start (total_period p1).start)) [
                  | inl d ↦ rw (c, parts, d) (replace_p1-Returns_self p1 f ends' (ground arith))
                  | inr d ↦ rw (c, parts, d) (merge_p1-Returns_self p1 a.0 h (ground arith) f ends')
                ]
          ]
        ]

  -- If fragments that overlap or touch can be merged, then `add` returns on every container whose
  -- fragments are in order and apart: it never erases an inverted range, and never throws.
  pub add-Returns :
      (b : UtcTime) (x : F) (f : List F)
      → Merges
      → IsFragment x
      → IsApart T b f
      → Returns (add T f x)
  unfolding add add_at
  add-Returns b x [] merges fx a = rw (split_nil T (ends_before T (total_period x))) (x ∷ [], refl)
  add-Returns b x (y ∷ f) merges fx a =
      let test = ends_before T (total_period x) in
      let parts = split_while T test f in
      elim (Bool-cases (test y)) [
        | inl c ↦
            let (g, e) = add-Returns (total_period y).end x f merges fx a.2 in
            let (h, placed, _) = >>=-eq-ok (add_at T x parts.1) (λ h. ok (parts.0 ++ h)) e in
            rw (split_pass T test y f c, placed) (y ∷ (parts.0 ++ h), refl)
        | inr c ↦
            let (g, e) = add_at-Returns merges b x fx y f a (ground arith) in
            rw (split_stop T test y f c, e) (g, refl)
      ]
