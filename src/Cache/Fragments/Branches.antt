-- ===== src/Cache/Fragments/Branches.antt =====
-- The branches of `add` of `mini_frag`, from the fragment p1 on.
use shyft.Prelude.{◌≡◌, inl, inr, true, false, List, [], ◌∷◌, arith}
use mathlib.Core.Path.{subst}
use shyft.Prelude.Tests.{Bool-cases}
use shyft.Prelude.Int.{leb_ℤ, max_ℤ, ◌≤ℤ◌, ◌<ℤ◌}
use shyft.Prelude.Outcome.{ok, ◌>>=◌, >>=-eq-ok, ok-injective}
use shyft.Utc.{UtcTime, UtcPeriod, contains, hull}
use shyft.Cache.Fragments.{Fragment, replace_p1, merge_p1, erase_to}
use shyft.Cache.Fragments.Order.{IsApart, find_at, EndsAfter, start-le-end, IsApart-mono}
use shyft.Cache.Fragments.Merge.{
  Overlays, Overlays-cons, Overlays-trans, Overlays-of_outside, Overlays-merge, HasKept,
  HasKept-cons, Keeps-refl, Keeps-merge, Keeps-trans,
}

module _ {ℓ} {F V : Type ℓ} (T : Fragment F V) where
  open T use {
    total_period, IsFragment, valid-total_period, value_at, merge, merge-IsFragment,
    total_period-merge,
  }

  -- The list after the call is in order, holds the old values overlaid with the new ones, and one
  -- of its fragments covers all of the new one.
  pub record IsAdded (b : UtcTime) (x : F) (f g : List F) : Type ℓ where
    pub apart : IsApart T b g
    pub overlays : Overlays T x f g
    pub kept : HasKept T x g

  -- A merge with a fragment that the new one overlaps or touches.
  merged-IsAdded :
      (b : UtcTime) (x y m : F) (f : List F)
      → IsFragment x
      → IsFragment y
      → b <ℤ (total_period x).start
      → b <ℤ (total_period y).start
      → (total_period x).start ≤ℤ (total_period y).end
      → (total_period y).start ≤ℤ (total_period x).end
      → IsApart T (max_ℤ (total_period x).end (total_period y).end) f
      → merge x y ≡ ok m
      → IsAdded b x (y ∷ f) (m ∷ f)
  merged-IsAdded b x y m f fx fy bx by' h k a merged =
      let period_is : total_period m ≡ hull (total_period x) (total_period y) =
        total_period-merge x y m fx fy merged in
      record {
        apart = rw period_is (merge-IsFragment x y m fx fy merged, ground arith, a);
        overlays = Overlays-merge T x y m fx fy merged f h k;
        kept = HasKept-cons T x m f (Keeps-merge T x y m fx fy merged);
      }

  pub erase_to-eq-ok :
      (covered : List F) (new : F) (r g : List F)
      → erase_to T covered new r ≡ ok g
      → ok (new ∷ r) ≡ ok g
  unfolding erase_to
  erase_to-eq-ok [] new r g e = cc
  erase_to-eq-ok (c ∷ cs) new r g e = e

  module _ (b : UtcTime) (x : F) (fx : IsFragment x) (above_b : b <ℤ (total_period x).start) where
    abbrev pub p : UtcPeriod
    p = total_period x

    -- The list from p1 on may be replaced by one that answers alike outside the new fragment.
    pub IsAdded-of_outside :
        (f f' g g' : List F)
        → ((t : UtcTime) → contains p t ≡ false → find_at T f t ≡ find_at T f' t)
        → ok g' ≡ ok g
        → IsAdded b x f' g'
        → IsAdded b x f g
    IsAdded-of_outside f f' g g' out e added = subst (IsAdded b x f) (ok-injective e) (record {
      apart = added.apart;
      overlays = Overlays-of_outside T x f f' g' added.overlays out;
      kept = added.kept;
    })

    pub cons-IsAdded : (f : List F) → IsApart T p.end f → IsAdded b x f (x ∷ f)
    cons-IsAdded f a = record {
      apart = (fx, above_b, a);
      overlays = Overlays-cons T x f;
      kept = HasKept-cons T x x f (Keeps-refl T x);
    }

    p2-IsApart :
        (c : UtcTime) (p2 : F) (above : List F)
        → EndsAfter T b p (p2 ∷ above)
        → c ≤ℤ (total_period p2).end
        → IsApart T c above
    p2-IsApart c p2 above a h = IsApart-mono T c (total_period p2).end above h a.3

    pub replace_p1-IsAdded :
        (f covered r g : List F)
        → EndsAfter T b p r
        → ((t : UtcTime) → contains p t ≡ false → find_at T f t ≡ find_at T r t)
        → replace_p1 T x covered r ≡ ok g
        → IsAdded b x f g
    unfolding replace_p1
    replace_p1-IsAdded f covered [] g a out e =
        IsAdded-of_outside f [] g (x ∷ []) out (erase_to-eq-ok covered x [] g e)
          (cons-IsAdded [] tt)
    replace_p1-IsAdded f covered (p2 ∷ above) g a out e =
        elim (Bool-cases (leb_ℤ (total_period p2).start p.end)) [
          | inl c ↦
              let (m, merged, e') = >>=-eq-ok (merge x p2) (λ m. ok (m ∷ above)) (rw c at e) in
              IsAdded-of_outside f (p2 ∷ above) g (m ∷ above) out e' (
                merged-IsAdded b x p2 m above fx a.0 above_b a.1
                  (omega (arith, start-le-end T x fx)) (ground arith)
                  (p2-IsApart (max_ℤ p.end (total_period p2).end) p2 above a (ground arith)) merged)
          | inr c ↦
              IsAdded-of_outside f (p2 ∷ above) g (x ∷ p2 ∷ above) out
                (erase_to-eq-ok covered x (p2 ∷ above) g (rw c at e))
                (cons-IsAdded (p2 ∷ above) (a.0, ground arith, a.3))
        ]

    module _ (p1 : F) (f1 : IsFragment p1) (p1_above_b : b <ℤ (total_period p1).start)
        (h : p.start ≤ℤ (total_period p1).end) (k : (total_period p1).start ≤ℤ p.end) where
      -- The first merge, with p1.
      first_merge :
          (m : F) (r : List F)
          → IsApart T (max_ℤ p.end (total_period p1).end) r
          → merge x p1 ≡ ok m
          → IsAdded b x (p1 ∷ r) (m ∷ r)
      first_merge m r a merged = merged-IsAdded b x p1 m r fx f1 above_b p1_above_b h k a merged

      -- The second merge, with a fragment p2 that may be p1 again.
      second_merge :
          (m n p2 : F) (above : List F)
          → merge x p1 ≡ ok m
          → merge m p2 ≡ ok n
          → EndsAfter T b p (p2 ∷ above)
          → (total_period p1).end ≤ℤ (total_period p2).end
          → (total_period p2).start ≤ℤ p.end
          → IsAdded b x (p1 ∷ p2 ∷ above) (n ∷ above)
      second_merge m n p2 above merged merged' a below touch =
          let period_is : total_period m ≡ hull p (total_period p1) =
            total_period-merge x p1 m fx f1 merged in
          let added =
            merged-IsAdded b m p2 n above (merge-IsFragment x p1 m fx f1 merged) a.0
              (rw period_is (ground arith)) a.1 (rw period_is (ground (arith, start-le-end T x fx)))
              (rw period_is (ground arith)) (rw period_is (p2-IsApart _ p2 above a (ground arith)))
              merged' in
          record {
            apart = added.apart;
            overlays =
                Overlays-trans T x m (p1 ∷ p2 ∷ above) (n ∷ above) (p2 ∷ above) added.overlays
                  (Overlays-merge T x p1 m fx f1 merged (p2 ∷ above) h k);
            kept = HasKept-cons T x n above (
                Keeps-trans T x m n fx (merge-IsFragment x p1 m fx f1 merged)
                  (Keeps-merge T x p1 m fx f1 merged)
                  (Keeps-merge T m p2 n (merge-IsFragment x p1 m fx f1 merged) a.0 merged'));
          }

      -- What the list from p1 on holds outside the new fragment, in the two merging branches.
      abbrev pub Outside : List F → List F → Type ℓ
      Outside f r = (t : UtcTime) → contains p t ≡ false → find_at T f t ≡ find_at T (p1 ∷ r) t

      pub merge_p1-IsAdded :
          (f covered r g : List F)
          → EndsAfter T b p r
          → Outside f r
          → (total_period p1).end ≤ℤ p.end
          → merge_p1 T x p1 covered r ≡ ok g
          → IsAdded b x f g
      unfolding merge_p1
      merge_p1-IsAdded f covered [] g a out within e =
          let (m, merged, e') = >>=-eq-ok (merge x p1) (λ m. erase_to T covered m []) e in
          IsAdded-of_outside f (p1 ∷ []) g (m ∷ []) out (erase_to-eq-ok covered m [] g e')
            (first_merge m [] tt merged)
      merge_p1-IsAdded f covered (p2 ∷ above) g a out within e =
          elim (Bool-cases (leb_ℤ (total_period p2).start p.end)) [
            | inl c ↦
                let (m, merged, e') =
                  >>=-eq-ok (merge x p1) (λ m. merge m p2 >>= λ n. ok (n ∷ above)) (rw c at e) in
                let (n, merged', e'') = >>=-eq-ok (merge m p2) (λ n. ok (n ∷ above)) e' in
                IsAdded-of_outside f (p1 ∷ p2 ∷ above) g (n ∷ above) out e''
                  (second_merge m n p2 above merged merged' a (omega arith) (ground arith))
            | inr c ↦
                let (m, merged, e') =
                  >>=-eq-ok (merge x p1) (λ m. erase_to T covered m (p2 ∷ above)) (rw c at e) in
                IsAdded-of_outside f (p1 ∷ p2 ∷ above) g (m ∷ p2 ∷ above) out
                  (erase_to-eq-ok covered m (p2 ∷ above) g e')
                  (first_merge m (p2 ∷ above) (a.0, ground arith, a.3) merged)
          ]

      -- Where the new fragment ends before p1 does, p2 is p1.
      pub merge_p1-IsAdded_self :
          (f g : List F)
          → EndsAfter T b p (p1 ∷ f)
          → merge_p1 T x p1 [] (p1 ∷ f) ≡ ok g
          → IsAdded b x (p1 ∷ f) g
      unfolding merge_p1
      merge_p1-IsAdded_self f g a e =
          let touch : leb_ℤ (total_period p1).start p.end ≡ true = ground arith in
          let (m, merged, e') =
            >>=-eq-ok (merge x p1) (λ m. merge m p1 >>= λ n. ok (n ∷ f)) (rw touch at e) in
          let (n, merged', e'') = >>=-eq-ok (merge m p1) (λ n. ok (n ∷ f)) e' in
          IsAdded-of_outside (p1 ∷ f) (p1 ∷ p1 ∷ f) g (n ∷ f) twice e''
            (second_merge m n p1 f merged merged' a (omega arith) k)
        where
          twice :
              (t : UtcTime)
              → contains p t ≡ false
              → find_at T (p1 ∷ f) t ≡ find_at T (p1 ∷ p1 ∷ f) t
          twice t o = ground arith
