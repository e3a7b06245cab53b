-- ===== src/Cache/Fragments/Add.antt =====
-- `add` of `mini_frag`: the invariant, and the values that the container holds after the call.
use shyft.Prelude.{suc, ◌≡◌, refl, inl, inr, false, List, [], ◌∷◌, ◌++◌, arith}
use shyft.Prelude.Tests.{Bool-cases}
use shyft.Prelude.Int.{ltb_ℤ, leb_ℤ, ◌≤ℤ◌, ◌<ℤ◌}
use shyft.Prelude.Outcome.{ok, >>=-eq-ok, ok-injective}
use shyft.Utc.{UtcTime, contains}
use shyft.Utc.Period.{contains-of_before}
use shyft.Cache.Fragments.{Fragment, split_while, ends_before, ends_in, merge_p1, add_at, add}
use shyft.Cache.Fragments.Order.{
  IsApart, find_at, from_p2, EndsAfter-from_p2, find_at-from_p2, split_pass, split_stop, split_nil,
  StartsIn-of_IsApart,
}
use shyft.Cache.Fragments.Branches.{
  IsAdded, IsAdded-of_outside, cons-IsAdded, replace_p1-IsAdded, merge_p1-IsAdded,
  merge_p1-IsAdded_self,
}

module _ {ℓ} {F V : Type ℓ} (T : Fragment F V) where
  open T use {total_period, IsFragment, valid-total_period}

  module _ (b : UtcTime) (x : F) (fx : IsFragment x) (above_b : b <ℤ (total_period x).start) where
    outside_p1 :
        (p1 : F) (f : List F)
        → IsApart T b (p1 ∷ f)
        → (total_period x).start ≤ℤ (total_period p1).end
        → (t : UtcTime) → contains (total_period x) t ≡ false
        → find_at T (p1 ∷ f) t ≡ find_at T (p1 ∷ from_p2 T (total_period x) f) t
    outside_p1 p1 f a h t o =
        let same =
          find_at-from_p2 T (total_period p1).end (total_period x) f t (valid-total_period x fx) a.2
            (StartsIn-of_IsApart T (total_period p1).end (total_period x) f h a.2) o in
        elim (Bool-cases (contains (total_period p1) t)) [
          | inl c ↦ rw (c, find_at)
          | inr c ↦ rw (c, find_at) same
        ]

    merging-IsAdded :
        (p1 : F) (f g : List F)
        → IsApart T b (p1 ∷ f)
        → (total_period x).start ≤ℤ (total_period p1).end
        → (total_period p1).start ≤ℤ (total_period x).end
        → merge_p1 T x p1
            (split_while T (ends_in T (total_period x)) (p1 ∷ f)).0
            (from_p2 T (total_period x) (p1 ∷ f))
          ≡ ok g
        → IsAdded T b x (p1 ∷ f) g
    merging-IsAdded p1 f g a h k e = elim (Bool-cases (ends_in T (total_period x) p1)) [
      | inl c ↦
          let p = total_period x in
          let parts = split_pass T (ends_in T p) p1 f c in
          merge_p1-IsAdded T b x fx above_b p1 a.0 a.1 h k (p1 ∷ f)
            (p1 ∷ (split_while T (ends_in T p) f).0) (from_p2 T p f) g
            (rw (parts, from_p2) at (EndsAfter-from_p2 T b p (p1 ∷ f) a)) (outside_p1 p1 f a h)
            (ground arith) (rw (parts, from_p2) at e)
      | inr c ↦
          let p = total_period x in
          let parts = split_stop T (ends_in T p) p1 f c in
          merge_p1-IsAdded_self T b x fx above_b p1 a.0 a.1 h k f g
            (rw (parts, from_p2) at (EndsAfter-from_p2 T b p (p1 ∷ f) a)) (rw (parts, from_p2) at e)
    ]

    add_at-IsAdded :
        (p1 : F) (f g : List F)
        → IsApart T b (p1 ∷ f)
        → (total_period x).start ≤ℤ (total_period p1).end
        → add_at T x (p1 ∷ f) ≡ ok g
        → IsAdded T b x (p1 ∷ f) g
    unfolding add_at
    add_at-IsAdded p1 f g a h e =
        elim (Bool-cases (ltb_ℤ (total_period x).end (total_period p1).start)) [
          | inl c ↦
              IsAdded-of_outside T b x fx above_b (p1 ∷ f) (p1 ∷ f) g (x ∷ p1 ∷ f) (λ t o. refl)
                (rw c at e) (cons-IsAdded T b x fx above_b (p1 ∷ f) (a.0, ground arith, a.2))
          | inr c ↦ elim (Bool-cases (leb_ℤ (total_period x).start (total_period p1).start)) [
            | inl d ↦
                replace_p1-IsAdded T b x fx above_b (p1 ∷ f) _ (from_p2 T (total_period x) (p1 ∷ f))
                  g (EndsAfter-from_p2 T b (total_period x) (p1 ∷ f) a)
                  (λ t o.
                    find_at-from_p2 T b (total_period x) (p1 ∷ f) t (valid-total_period x fx) a
                      (ground arith) o)
                  (rw (c, d) at e)
            | inr d ↦ merging-IsAdded p1 f g a h (ground arith) (rw (c, d) at e)
          ]
        ]

  -- The part before `lower_bound` stays as it is.
  cons_before-IsAdded :
      (b : UtcTime) (x y : F) (f g : List F)
      → IsFragment y
      → b <ℤ (total_period y).start
      → (total_period y).end <ℤ (total_period x).start
      → IsAdded T (total_period y).end x f g
      → IsAdded T b x (y ∷ f) (y ∷ g)
  cons_before-IsAdded b x y f g fy above_b before added = record {
    apart = (fy, above_b, added.apart);
    overlays = λ t. elim (Bool-cases (contains (total_period y) t)) [
      | inl c ↦
          let later : contains (total_period x) t ≡ false =
            contains-of_before (total_period y) (total_period x) t (omega arith) c in
          rw (c, later, find_at) (refl, refl)
      | inr c ↦ rw (c, find_at) (added.overlays t)
    ];
    kept = let (k, z, at_k, keeps) = added.kept in (suc k, z, at_k, keeps);
  }

  -- If `add` of a well-formed fragment returns for fragments in order and apart, all after a bound
  -- that the new one is after too, then it keeps them so. After it, a time point of
  -- the new fragment's period holds the new fragment's value, every other one holds what it held
  -- before, the times covered are those of the new fragment with those covered before, and one
  -- fragment covers the whole of the new one and stores its values there.
  pub add-IsAdded :
      (b : UtcTime) (x : F) (f g : List F)
      → IsFragment x
      → b <ℤ (total_period x).start
      → IsApart T b f
      → add T f x ≡ ok g
      → IsAdded T b x f g
  unfolding add add_at
  add-IsAdded b x [] g fx above_b a e =
      rw (← ok-injective (rw (split_nil T (ends_before T (total_period x))) at e))
        (cons-IsAdded T b x fx above_b [] tt)
  add-IsAdded b x (y ∷ f) g fx above_b a e =
      let test = ends_before T (total_period x) in
      let parts = split_while T test f in
      elim (Bool-cases (test y)) [
        | inl c ↦
            let (h, placed, e') =
              >>=-eq-ok (add_at T x parts.1) (λ h. ok (y ∷ (parts.0 ++ h)))
                (rw (split_pass T test y f c) at e) in
            rw (← ok-injective e') (
              cons_before-IsAdded b x y f (parts.0 ++ h) a.0 a.1 (ground arith) (
                add-IsAdded (total_period y).end x f (parts.0 ++ h) fx (ground arith) a.2
                  (rw placed)))
        | inr c ↦
            let (h, placed, e') =
              >>=-eq-ok (add_at T x (y ∷ f)) (λ h. ok h) (rw (split_stop T test y f c) at e) in
            rw (← ok-injective e') (add_at-IsAdded b x fx above_b y f h a (ground arith) placed)
      ]
